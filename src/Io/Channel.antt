-- ===== src/Io/Channel.antt =====
-- A channel of bytes as a reader and a writer.
use junction.Prelude.{
  ℕ, ◌≡◌, ◌<◌, sym, ap, ap₂, ◌∙◌, min, false, ◌==◌, if◌then◌else◌, List, ◌++◌, length, take,
  append-nil, take-append-drop, length-take, Errno, Status, ok, err, eagain, arith,
}
use junction.ByteChannel.{ByteChannel, read, write}
use junction.ByteChannel.Valid.{IsValid, used, contents}
use junction.ByteChannel.Read.{read_lem}
use junction.ByteChannel.Write.{write_lem}
use junction.Io.Transfer.{WriterLaws}
use junction.Io.Buffered.{ReaderLaws}

abbrev pub Channel : Type 0
Channel = (c : ByteChannel) × IsValid c

abbrev pub channel_bytes : Channel → List ℕ
channel_bytes (c, v) = contents c

abbrev pub channel_read : Channel → ℕ → Status (List ℕ) × Channel
channel_read (c, v) len = ((read c len false).0, ((read c len false).1, (read_lem c len false v).0))

abbrev pub channel_write : Channel → List ℕ → Status ℕ × Channel
channel_write (c, v) bs = ((write c bs).0, ((write c bs).1, (write_lem c bs v).0))

given : {l bs : List ℕ} (n : ℕ) → ok bs ≡ (if n == 0 then err eagain else ok l) → bs ≡ l
given n e = ground (arith, e)

taken : (n k : ℕ) → ok k ≡ (if n == 0 then err eagain else ok n) → (0 < n) × (k ≡ n)
taken n k e = ground (arith, e)

refused : (n : ℕ) (e : Errno) → err e ≡ (if n == 0 then err eagain else ok n) → n ≡ 0
refused n e h = ground (arith, h)

pub channel-ReaderLaws : ReaderLaws channel_read channel_bytes
channel-ReaderLaws = record {
  gives = λ (c, v) len bs e.
      let (_, result, left) = read_lem c len false v in
      let n = min (used c) len in
      let front = given n (sym e ∙ result) in
      (
        omega (arith, ap length front, length-take n (contents c)),
        ap₂ ◌++◌ front left ∙ take-append-drop n (contents c),
      );
}

pub channel-WriterLaws : WriterLaws channel_write channel_bytes
channel-WriterLaws = record {
  takes = λ (c, v) bs n e.
      let (_, result, left) = write_lem c bs v in
      let (_, same) = taken _ n (sym e ∙ result) in
      (omega (arith, same), left ∙ ap (λ (k : ℕ). contents c ++ take k bs) (sym same));
  moves = λ (c, v) bs n e some_bytes.
      let (_, result, left) = write_lem c bs v in
      let (pos, same) = taken _ n (sym e ∙ result) in omega (arith, pos, same);
  fails = λ (c, v) bs x e.
      let (_, result, left) = write_lem c bs v in
      let none_taken = refused _ x (sym e ∙ result) in
      left ∙ (ap (λ (k : ℕ). contents c ++ take k bs) none_taken ∙ append-nil (contents c));
}
