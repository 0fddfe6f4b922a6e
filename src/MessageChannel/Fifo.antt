-- ===== src/MessageChannel/Fifo.antt =====
-- The channel as a bounded queue of messages.
use junction.Prelude.{
  ℕ, ◌≡◌, ◌+◌, ◌<◌, refl, sym, ap, ◌∙◌, min, Bool, true, false, ◌==◌, ◌&&◌, not, if◌then◌else◌, leb,
  List, [], ◌∷◌, ◌++◌, length, take, Option, Status, ok, err, eagain, einval, arith, Bool-cases,
  inl, inr,
}
use junction.Prelude.Tabulate.{tabulate, length-tabulate}
use junction.Io.{generic_readv, sum_iov, concat}
use junction.Io.Copy.{generic_writev_all}
use junction.MessageChannel.{
  Message, MessageChannel, slot, aux_of, consumed, produced, read, readv, write, writev,
}
use junction.MessageChannel.Ring.{
  IsValid, used, contents, new_message, produced-IsValid, contents-produced,
}
use junction.MessageChannel.Consume.{
  after_read, contents_first, contents-consumed, contents-peeked, consumed-IsValid,
}

module _ {A : Type 0} (blank : A) (moved_from : A → A) where
  -- A read of a queue: what it gives for the oldest message, and the queue after it.
  abbrev pub read_queue :
      {R : Type 0}
      → (Message A → R)
      → Bool
      → Bool
      → List (Message A)
      → Status (R × Option A) × List (Message A)
  read_queue give take_aux peek [] = (err eagain, [])
  read_queue give take_aux peek (m ∷ ms) = (
    ok (give m, aux_of blank moved_from take_aux m),
    if peek then after_read blank moved_from take_aux true m ∷ ms else ms,
  )

  used_zero : (c : MessageChannel A) → (c.in_ == c.out_) ≡ true → used c ≡ 0
  used_zero c e = ground (arith, e)

  used_pos : (c : MessageChannel A) → IsValid c → (c.in_ == c.out_) ≡ false → 0 < used c
  used_pos c v e = ground (arith, e, v.in_small, v.out_small)

  queue_empty :
      {R : Type 0} (give : Message A → R) (c : MessageChannel A) (take_aux peek : Bool)
      → (c.in_ == c.out_) ≡ true
      → Path
          (Status (R × Option A) × List (Message A))
          (err eagain, contents blank moved_from c)
          (read_queue give take_aux peek (contents blank moved_from c))
  queue_empty give c take_aux peek e =
      let nothing : contents blank moved_from c ≡ [] =
        ap (tabulate (λ i. slot blank moved_from c (c.out_ + i))) (used_zero c e) in
      ap (λ (l : List (Message A)). (err eagain, l)) nothing
      ∙ ap (read_queue give take_aux peek) (sym nothing)

  queue_after :
      {R : Type 0} (give : Message A → R) (c : MessageChannel A) (take_aux peek : Bool)
      → IsValid c
      → 0 < used c
      → let m = slot blank moved_from c c.out_ in
        (
          ok (give m, aux_of blank moved_from take_aux m),
          contents blank moved_from (consumed blank moved_from c take_aux peek),
        )
        ≡ read_queue give take_aux peek (contents blank moved_from c)
  queue_after give c take_aux true v h =
      ap
        (λ (l : List (Message A)). (
          ok (
            give (slot blank moved_from c c.out_),
            aux_of blank moved_from take_aux (slot blank moved_from c c.out_),
          ),
          l,
        ))
        (contents-peeked blank moved_from c take_aux v h)
      ∙ ap (read_queue give take_aux true) (sym (contents_first blank moved_from c h))
  queue_after give c take_aux false v h =
      ap
        (λ (l : List (Message A)). (
          ok (
            give (slot blank moved_from c c.out_),
            aux_of blank moved_from take_aux (slot blank moved_from c c.out_),
          ),
          l,
        ))
        (contents-consumed blank moved_from c take_aux v h)
      ∙ ap (read_queue give take_aux false) (sym (contents_first blank moved_from c h))

  -- Read of a valid channel, where no writer comes between its store of out_ and its clearing of the slot,
  -- is a read of the queue of its messages: it fails with EAGAIN when there is
  -- none, and else gives the first bytes of the oldest message, and its auxiliary data when they are
  -- wanted. The message leaves the channel, or, when the call peeks, stays with its bytes and, if they were
  -- wanted, with what the move leaves of its auxiliary data. The channel stays valid.
  pub read_refines :
      (c : MessageChannel A) (len : ℕ) (take_aux peek : Bool)
      → IsValid c
      → let (r, c') = read blank moved_from c len take_aux peek in
        IsValid c'
        × ((r, contents blank moved_from c')
            ≡ read_queue
                (λ (m : Message A). take (min len (length m.bytes)) m.bytes)
                take_aux
                peek
                (contents blank moved_from c))
  unfolding read
  read_refines c len take_aux peek v = elim (Bool-cases (c.in_ == c.out_)) [
    | inl empty ↦ rw empty (
      v,
      queue_empty (λ (m : Message A). take (min len (length m.bytes)) m.bytes) c take_aux peek
          empty,
    )
    | inr some_message ↦
        let h = used_pos c v some_message in
        rw some_message (
          consumed-IsValid blank moved_from c take_aux peek v h,
          queue_after (λ (m : Message A). take (min len (length m.bytes)) m.bytes) c take_aux peek v
              h,
        )
  ]

  -- A write to a queue with room for `size` messages.
  abbrev pub write_queue : ℕ → ℕ → Message A → List (Message A) → Status ℕ × List (Message A)
  write_queue size n m ms = if leb size (length ms) then (err eagain, ms) else (ok n, ms ++ m ∷ [])

  length-contents : (c : MessageChannel A) → length (contents blank moved_from c) ≡ used c
  length-contents c = length-tabulate _ (used c)

  has_room : (c : MessageChannel A) → leb c.size (used c) ≡ false → used c < c.size
  has_room c e = ground (arith, e)

  write_fails :
      (c : MessageChannel A) (n : ℕ) (m : Message A)
      → leb c.size (used c) ≡ true
      → Path
          (Status ℕ × List (Message A))
          (err eagain, contents blank moved_from c)
          (write_queue c.size n m (contents blank moved_from c))
  write_fails c n m full = rw (length-contents c, full) refl

  write_goes :
      (c : MessageChannel A) (n : ℕ) (bytes : List ℕ) (aux : Option A)
      → IsValid c
      → leb c.size (used c) ≡ false
      → Path
          (Status ℕ × List (Message A))
          (ok n, contents blank moved_from (produced blank moved_from c bytes aux))
          (write_queue c.size n
            (new_message blank moved_from c bytes aux)
            (contents blank moved_from c))
  write_goes c n bytes aux v room =
      rw (length-contents c, room)
        (ap (λ (l : List (Message A)). (ok n, l))
          (contents-produced blank moved_from c bytes aux v (has_room c room)))

  -- Write to a valid channel is a write to the queue of its messages: it fails with EAGAIN when there are
  -- as many as the channel has slots, and else puts in a message with the bytes, and the auxiliary data
  -- that are given, and returns the number of bytes. The channel stays valid.
  pub write_refines :
      (c : MessageChannel A) (bytes : List ℕ) (aux : Option A)
      → IsValid c
      → let (r, c') = write blank moved_from c bytes aux in
        IsValid c'
        × ((r, contents blank moved_from c')
            ≡ write_queue c.size
                (length bytes)
                (new_message blank moved_from c bytes aux)
                (contents blank moved_from c))
  unfolding write
  write_refines c bytes aux v = elim (Bool-cases (leb c.size (used c))) [
    | inl full ↦
        rw full (v, write_fails c (length bytes) (new_message blank moved_from c bytes aux) full)
    | inr room ↦ rw room (
      produced-IsValid blank moved_from c bytes aux v (has_room c room),
      write_goes c (length bytes) bytes aux v room,
    )
  ]

  -- Readv is the same read into several buffers; without any buffer it fails with EINVAL, and changes
  -- nothing, unless there is no message.
  pub readv_refines :
      (c : MessageChannel A) (iov : List (List ℕ)) (take_aux peek : Bool)
      → IsValid c
      → let (r, c') = readv blank moved_from c iov take_aux peek in
        IsValid c'
        × ((r, contents blank moved_from c') ≡ (
            if length iov == 0 && not (c.in_ == c.out_)
            then (err einval, contents blank moved_from c)
            else read_queue
                (λ (m : Message A). generic_readv m.bytes iov)
                take_aux
                peek
                (contents blank moved_from c)))
  unfolding readv
  readv_refines c iov take_aux peek v = elim (Bool-cases (c.in_ == c.out_)) [
    | inl empty ↦ elim (Bool-cases (length iov == 0)) [
      | inl none_given ↦
          rw (empty, none_given)
            (v, queue_empty (λ (m : Message A). generic_readv m.bytes iov) c take_aux peek empty)
      | inr given ↦
          rw (empty, given)
            (v, queue_empty (λ (m : Message A). generic_readv m.bytes iov) c take_aux peek empty)
    ]
    | inr some_message ↦ elim (Bool-cases (length iov == 0)) [
      | inl none_given ↦ rw (some_message, none_given) (v, refl)
      | inr given ↦
          let h = used_pos c v some_message in
          rw (some_message, given)
            (
              consumed-IsValid blank moved_from c take_aux peek v h,
              queue_after (λ (m : Message A). generic_readv m.bytes iov) c take_aux peek v h,
            )
    ]
  ]

  -- Writev is a write of the bytes of all buffers, one after the other, as one message; without any byte
  -- it fails with EINVAL, and changes nothing, unless the channel is full.
  pub writev_refines :
      (c : MessageChannel A) (iov : List (List ℕ)) (aux : Option A)
      → IsValid c
      → let (r, c') = writev blank moved_from c iov aux in
        IsValid c'
        × ((r, contents blank moved_from c') ≡ (
            if sum_iov iov == 0 && not (leb c.size (used c))
            then (err einval, contents blank moved_from c)
            else write_queue c.size
                (sum_iov iov)
                (new_message blank moved_from c (concat iov) aux)
                (contents blank moved_from c)))
  unfolding writev
  writev_refines c iov aux v = elim (Bool-cases (leb c.size (used c))) [
    | inl full ↦ elim (Bool-cases (sum_iov iov == 0)) [
      | inl nothing ↦
          rw (full, nothing)
            (v, write_fails c (sum_iov iov) (new_message blank moved_from c (concat iov) aux) full)
      | inr bytes ↦
          rw (full, bytes)
            (v, write_fails c (sum_iov iov) (new_message blank moved_from c (concat iov) aux) full)
    ]
    | inr room ↦ elim (Bool-cases (sum_iov iov == 0)) [
      | inl nothing ↦ rw (room, nothing) (v, refl)
      | inr bytes ↦
          rw (room, bytes, generic_writev_all iov)
            (
              produced-IsValid blank moved_from c (concat iov) aux v (has_room c room),
              write_goes c (sum_iov iov) (concat iov) aux v room,
            )
    ]
  ]
