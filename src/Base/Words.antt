-- ===== src/Base/Words.antt =====
-- `size_t` on the recorder's x86_64 hosts: 64 bits, wrapping.
use Prim.Native.Nat.{ℕ, ◌+◌, ◌-◌, ◌%◌, ◌^◌}

abbrev pub word : ℕ → ℕ
word n = n % 2 ^ 64

-- a - b for two words
abbrev pub sub_word : ℕ → ℕ → ℕ
sub_word a b = (a + 2 ^ 64 - b) % 2 ^ 64
