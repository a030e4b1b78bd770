-- ===== src/Dns/Frames.antt =====
-- The framing of DNS messages over a stream.
use tiller_router.Prelude.{
  ℕ, ◌+◌, ◌*◌, ◌/◌, ◌%◌, ◌<◌, ◌≡◌, refl, ap, ◌∙◌, some, [], ◌∷◌, ◌++◌, length, arith,
}
use tiller_router.Dns.{Bytes, read_full, read_frame, write_frame}

read_full-append :
    (message rest : Bytes) → read_full (length message) (message ++ rest) ≡ some (message, rest)
unfolding read_full
read_full-append [] rest = refl
read_full-append (b ∷ message) rest = rw (read_full-append message rest) refl

-- A message shorter than 2^16 bytes is read back from its frame, whatever follows it on the stream.
pub read_frame-write_frame :
    (message rest : Bytes)
    → length message < 65536
    → read_frame (write_frame message ++ rest) ≡ some (message, rest)
unfolding read_frame write_frame
read_frame-write_frame message rest short =
    let size : (length message % 65536) / 256 * 256 + (length message % 65536) % 256
        ≡ length message =
      omega (arith, short) in
    ap (λ (n : ℕ). read_full n (message ++ rest)) size ∙ read_full-append message rest
