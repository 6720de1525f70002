-- ===== src/ByteOrder/Laws.antt =====
-- What follows for the readers of integers.
use video.Base.{ℕ, ◌+◌, ◌^◌, ◌<◌, ◌≡◌, ap, List, ◌++◌, length, ok, err, Settles, value, Settles->>=}
use video.Io.{read_exact-append, read_exact-short, read_exact-Settles, unexpected_eof}
use video.ByteOrder.{ByteOrder, read_be, read_le}

module _ (bo : ByteOrder) where
  -- A number that fits its width is read back, and the rest remains.
  pub read_be-to_be :
      (n v : ℕ) (rest : List ℕ) → v < 256 ^ n → read_be bo n (bo.to_be n v ++ rest) ≡ ok (v, rest)
  unfolding read_be
  read_be-to_be n v rest h =
      rw (read_exact-append n (bo.to_be n v) rest (bo.length-to_be n v))
        (ap (λ m. ok (m, rest)) (bo.from_be-to_be n v h))

  pub read_le-to_le :
      (n v : ℕ) (rest : List ℕ) → v < 256 ^ n → read_le bo n (bo.to_le n v ++ rest) ≡ ok (v, rest)
  unfolding read_le
  read_le-to_le n v rest h =
      rw (read_exact-append n (bo.to_le n v) rest (bo.length-to_le n v))
        (ap (λ m. ok (m, rest)) (bo.from_le-to_le n v h))

  pub read_be-short : (n : ℕ) (bs : List ℕ) → length bs < n → read_be bo n bs ≡ err unexpected_eof
  unfolding read_be
  read_be-short n bs h = rw (read_exact-short n bs h)

  pub read_be-Settles :
      {C : Type 0} (n : ℕ) (bs : List ℕ)
      → Settles C (λ (m, rest). length rest + n ≡ length bs) (read_be bo n bs)
  unfolding read_be
  read_be-Settles n bs = Settles->>= (read_exact-Settles n bs) (λ (buf, rest) h. value (h.1))
