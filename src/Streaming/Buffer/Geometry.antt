-- ===== src/Streaming/Buffer/Geometry.antt =====
-- The layout that a resize gives the buffer.
use native.Mathlib.Nat.{div-mul-le_self}
use data_recorder.Base.{ℕ, ◌+◌, ◌-◌, ◌*◌, ◌/◌, ◌≡◌, ◌≤◌, arith}

-- `newNumFramesFix`
abbrev pub fixed : ℕ → ℕ → ℕ
fixed frames frames_per_ticket =
    (frames / frames_per_ticket + 1) * frames_per_ticket - frames_per_ticket

pub fixed_lem : (frames n : ℕ) → fixed frames n ≡ frames / n * n
fixed_lem frames n = ground arith

pub fixed-le : (frames n : ℕ) → fixed frames n ≤ frames
fixed-le frames n = omega (arith, fixed_lem frames n, div-mul-le_self frames n)

pub mul_mono : (a b c : ℕ) → a ≤ b → a * c ≤ b * c
mul_mono a b c h = grind (arith, h)
