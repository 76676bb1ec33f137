-- ===== src/Base/Bytes.antt =====
-- Byte slices and little-endian numbers.
use Prim.Native.Nat.{ℕ, zero, suc, ◌+◌, ◌-◌, ◌*◌, ◌/◌, ◌%◌, ◌^◌, ◌<◌, ◌≤◌}
use mathlib.Core.Path.{◌≡◌, refl, sym, ap, ◌∙◌}
use mathlib.Core.List.{List, [], ◌∷◌, ◌++◌}
use mathlib.Core.Option.{Option, none, some}
use native.Mathlib.Nat.{pow-suc}
use native.Mathlib.Omega.{arith}
use paranuk_os.Base.Tests.{leb, if◌then◌else◌}
use paranuk_os.Base.Arrays.{length, take, drop, length-append, take-append}

-- `from_le_bytes`, least significant byte first.
abbrev pub from_le : List ℕ → ℕ
from_le [] = 0
from_le (b ∷ bs) = b + 256 * from_le bs

-- `to_le_bytes` of a number of `n` bytes.
abbrev pub to_le : ℕ → ℕ → List ℕ
to_le zero x = []
to_le (suc n) x = (x % 256) ∷ to_le n (x / 256)

-- `bytes.get(offset..offset + n)`
abbrev pub slice? : List ℕ → ℕ → ℕ → Option (List ℕ)
slice? bytes offset n =
    if leb (offset + n) (length bytes) then some (take n (drop offset bytes)) else none

-- `bytes[offset..offset + n].copy_from_slice(new)`, where the range lies in `bytes`.
abbrev pub patch : List ℕ → ℕ → List ℕ → List ℕ
patch bytes zero new = new ++ drop (length new) bytes
patch [] (suc offset) new = []
patch (b ∷ bytes) (suc offset) new = b ∷ patch bytes offset new

-- `bytes[from..from + n].copy_from_slice(new)`
unfoldable pub copy_into : List ℕ → ℕ → List ℕ → Option (List ℕ)
copy_into bytes from new =
    if leb (from + length new) (length bytes) then some (patch bytes from new) else none

pub length-to_le : (n x : ℕ) → length (to_le n x) ≡ n
length-to_le zero x = refl
length-to_le (suc n) x = ap suc (length-to_le n (x / 256))

pub from_le-to_le : (n x : ℕ) → x < 256 ^ n → from_le (to_le n x) ≡ x
from_le-to_le zero x h = omega arith
from_le-to_le (suc n) x h =
    omega (arith, from_le-to_le n (x / 256) (omega (arith, pow-suc 256 n, h)))

pub length-take : (n : ℕ) (xs : List ℕ) → n ≤ length xs → length (take n xs) ≡ n
length-take zero xs h = refl
length-take (suc n) [] h = absurd (omega arith)
length-take (suc n) (x ∷ xs) h = omega (arith, length-take n xs (omega arith))

pub length-drop : (n : ℕ) (xs : List ℕ) → length (drop n xs) ≡ length xs - n
length-drop zero xs = omega arith
length-drop (suc n) [] = omega arith
length-drop (suc n) (x ∷ xs) = omega (arith, length-drop n xs)

pub length-patch :
    (bytes : List ℕ) (offset : ℕ) (new : List ℕ)
    → offset + length new ≤ length bytes
    → length (patch bytes offset new) ≡ length bytes
length-patch bytes zero new h =
    omega (arith, length-append new (drop (length new) bytes), length-drop (length new) bytes)
length-patch [] (suc offset) new h = refl
length-patch (b ∷ bytes) (suc offset) new h = ap suc (length-patch bytes offset new (omega arith))

-- What is written is read back.
pub take-drop-patch :
    (bytes : List ℕ) (offset : ℕ) (new : List ℕ)
    → offset ≤ length bytes
    → take (length new) (drop offset (patch bytes offset new)) ≡ new
take-drop-patch bytes zero new h = take-append new (drop (length new) bytes)
take-drop-patch [] (suc offset) new h = absurd (omega arith)
take-drop-patch (b ∷ bytes) (suc offset) new h = take-drop-patch bytes offset new (omega arith)

pub drop-append : (xs ys : List ℕ) (k : ℕ) → drop (length xs + k) (xs ++ ys) ≡ drop k ys
drop-append [] ys k = ap (λ i. drop i ys) (omega arith)
drop-append (x ∷ xs) ys k =
    ap (λ i. drop i (x ∷ (xs ++ ys))) {y = suc (length xs + k)} (omega arith) ∙ drop-append xs ys k

drop-nil : (n : ℕ) → drop {A = ℕ} n [] ≡ []
drop-nil zero = refl
drop-nil (suc n) = refl

pub drop-drop : (n k : ℕ) (xs : List ℕ) → drop n (drop k xs) ≡ drop (k + n) xs
drop-drop n zero xs = ap (λ i. drop i xs) (omega arith)
drop-drop n (suc k) [] = drop-nil n ∙ sym (drop-nil (suc k + n))
drop-drop n (suc k) (x ∷ xs) =
    drop-drop n k xs ∙ ap (λ i. drop i (x ∷ xs)) {x = suc (k + n)} (omega arith)

-- A read behind what is written, or before it, is as it was.
pub drop-patch_after :
    (bytes : List ℕ) (offset at : ℕ) (new : List ℕ)
    → offset + length new ≤ at
    → offset + length new ≤ length bytes
    → drop at (patch bytes offset new) ≡ drop at bytes
drop-patch_after bytes zero at new h k =
    ap (λ i. drop i (new ++ drop (length new) bytes)) {y = length new + (at - length new)}
      (omega arith)
    ∙ drop-append new (drop (length new) bytes) (at - length new)
    ∙ drop-drop (at - length new) (length new) bytes
    ∙ ap (λ i. drop i bytes) (omega arith)
drop-patch_after [] (suc offset) at new h k = refl
drop-patch_after (b ∷ bytes) (suc offset) zero new h k = absurd (omega arith)
drop-patch_after (b ∷ bytes) (suc offset) (suc at) new h k =
    drop-patch_after bytes offset at new (omega arith) (omega arith)

pub take-drop-patch_before :
    (bytes : List ℕ) (offset at n : ℕ) (new : List ℕ)
    → at + n ≤ offset
    → offset + length new ≤ length bytes
    → take n (drop at (patch bytes offset new)) ≡ take n (drop at bytes)
take-drop-patch_before bytes offset zero zero new h k = refl
take-drop-patch_before bytes zero at (suc n) new h k = absurd (omega arith)
take-drop-patch_before bytes zero (suc at) zero new h k = absurd (omega arith)
take-drop-patch_before [] (suc offset) at n new h k = refl
take-drop-patch_before (b ∷ bytes) (suc offset) zero (suc n) new h k =
    ap (◌∷◌ b) (take-drop-patch_before bytes offset zero n new (omega arith) (omega arith))
take-drop-patch_before (b ∷ bytes) (suc offset) (suc at) n new h k =
    take-drop-patch_before bytes offset at n new (omega arith) (omega arith)
