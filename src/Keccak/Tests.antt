-- ===== src/Keccak/Tests.antt =====
-- Known digests.
use monad_hackathon.Keccak.{keccak256}
use monad_hackathon.Prelude.{refl, ◌≡◌}

empty_digest : keccak256 "" ≡ "0xc5d2460186f7233c927e7db2dcc703c0e500b653ca82273b7bfad8045d85a470"
unfolding keccak256
empty_digest = refl
