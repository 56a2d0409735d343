-- ===== src/Base/Bytes.antt =====
-- Octets, and numbers written as fixed-width groups of them.
use Prim.Native.Char.{code}
use Prim.Native.String.{String}
use Prim.Native.Nat.{zero, suc, ◌^◌, ℕ, ◌+◌, ◌*◌, ◌/◌, ◌%◌, ◌<◌}
use mathlib.Core.Path.{◌≡◌, refl}
use mathlib.Core.List.{List, [], ◌∷◌}
use native.Mathlib.Nat.{pow-suc}
use mathlib.Core.Bool.{Bool, true, false, ◌&&◌}
use mathlib.Core.Logic.{◌↔◌}
use mls_tls_protocol.Base.Tests.{◌==◌}
use native.Mathlib.Omega.{arith}

-- `Vec<u8>`, `&[u8]`, `Bytes`, `BytesMut`
abbrev pub Octets : Type 0
Octets = List ℕ

-- Every element is a `u8`.
abbrev pub IsOctets : Octets → Type 0
IsOctets [] = Unit
IsOctets (b ∷ bs) = (b < 256) × IsOctets bs

-- `as u8`, `as u16` and the width of `u64`
abbrev pub as_u8 : ℕ → ℕ
as_u8 n = n % 256

abbrev pub as_u16 : ℕ → ℕ
as_u16 n = n % 65536

abbrev pub as_u64 : ℕ → ℕ
as_u64 n = n % 18446744073709551616

-- `u16::to_be_bytes`
abbrev pub to_be_bytes : ℕ → Octets
to_be_bytes n = (n / 256 % 256) ∷ (n % 256) ∷ []

-- `u16::from_be_bytes`
abbrev pub from_be_bytes : ℕ → ℕ → ℕ
from_be_bytes hi lo = hi * 256 + lo

pub from_be_bytes-to_be_bytes : (n : ℕ) → n < 65536 → from_be_bytes (n / 256 % 256) (n % 256) ≡ n
from_be_bytes-to_be_bytes n h = omega arith

-- The bytes of an ASCII literal, `b"…"`.
abbrev pub ascii : String → Octets
ascii String.[] = []
ascii (String.◌∷◌ c s) = code c ∷ ascii s

-- `k` bytes of a number, lowest first: `u64::to_le_bytes` for eight.
unfoldable pub to_le_bytes : ℕ → ℕ → Octets
to_le_bytes zero n = []
to_le_bytes (suc k) n = (n % 256) ∷ to_le_bytes k (n / 256)

pub to_le_bytes-injective :
    (k n m : ℕ) → n < 256 ^ k → m < 256 ^ k → to_le_bytes k n ≡ to_le_bytes k m → n ≡ m
unfolding to_le_bytes
to_le_bytes-injective zero n m p q h = omega arith
to_le_bytes-injective (suc k) n m p q h =
    let low : n % 256 ≡ m % 256 = cc in
    let rest : to_le_bytes k (n / 256) ≡ to_le_bytes k (m / 256) = cc in
    let power = pow-suc 256 k in
    omega (arith, to_le_bytes-injective k (n / 256) (m / 256) (omega arith) (omega arith) rest)

-- `==` of two byte strings
abbrev pub octets_eq : Octets → Octets → Bool
octets_eq [] [] = true
octets_eq [] (b ∷ bs) = false
octets_eq (a ∷ as_) [] = false
octets_eq (a ∷ as_) (b ∷ bs) = (a == b) && octets_eq as_ bs

pub octets_eq_iff : (a b : Octets) → (octets_eq a b ≡ true) ↔ (a ≡ b)
octets_eq_iff [] [] = (λ _. refl, λ _. refl)
octets_eq_iff [] (b ∷ bs) = (λ h. absurd (ground arith), λ h. absurd (ground arith))
octets_eq_iff (a ∷ as_) [] = (λ h. absurd (ground arith), λ h. absurd (ground arith))
octets_eq_iff (a ∷ as_) (b ∷ bs) =
    let ih = octets_eq_iff as_ bs in (λ h. ground arith, λ h. ground arith)
