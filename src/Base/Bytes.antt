-- ===== src/Base/Bytes.antt =====
-- Byte buffers as functions of the index: the bytes of a slice, and a copy into one.
use Prim.Native.Nat.{ℕ, zero, suc, ◌+◌, ◌≤◌, ◌<◌}
use mathlib.Core.Path.{◌≡◌, refl, ap, ap₂, ◌∙◌}
use mathlib.Core.List.{List, [], ◌∷◌, ◌++◌}
use native.Mathlib.Omega.{arith}
use fantuan_kernel.Base.Slots.{update, update_self, update_ne}
use fantuan_kernel.Base.Lists.{length}

-- The first k bytes of a buffer from i on: `&buf[i..i + k]`.
unfoldable pub bytes_from : (ℕ → ℕ) → ℕ → ℕ → List ℕ
bytes_from buf i zero = []
bytes_from buf i (suc k) = buf i ∷ bytes_from buf (i + 1) k

-- `copy_from_slice`: write the list from index i on.
unfoldable pub copy_to : (ℕ → ℕ) → ℕ → List ℕ → ℕ → ℕ
copy_to buf i [] = buf
copy_to buf i (x ∷ xs) = copy_to (update buf i x) (i + 1) xs

-- Buffers that agree on the range have the same bytes there.
pub bytes_from-ext :
    (f g : ℕ → ℕ) (i j k : ℕ)
    → ((m : ℕ) → m < k → f (i + m) ≡ g (j + m))
    → bytes_from f i k ≡ bytes_from g j k
unfolding bytes_from
bytes_from-ext f g i j zero h = refl
bytes_from-ext f g i j (suc k) h =
    ap₂ ◌∷◌
      (ap f {x = i} {y = i + 0} (omega arith)
        ∙ (h 0 (omega arith) ∙ ap g {x = j + 0} {y = j} (omega arith)))
      (bytes_from-ext f g (i + 1) (j + 1) k (λ m l.
        ap f {x = i + 1 + m} {y = i + suc m} (omega arith)
        ∙ (h (suc m) (omega arith) ∙ ap g {x = j + suc m} {y = j + 1 + m} (omega arith))))

pub bytes_from-append :
    (f : ℕ → ℕ) (i k n : ℕ) → bytes_from f i (k + n) ≡ bytes_from f i k ++ bytes_from f (i + k) n
unfolding bytes_from
bytes_from-append f i zero n = ap₂ (bytes_from f) {x = i} (omega arith) (omega arith)
bytes_from-append f i (suc k) n =
    ap (bytes_from f i) {x = suc k + n} {y = suc (k + n)} (omega arith)
    ∙ ap (λ l. f i ∷ l)
        (bytes_from-append f (i + 1) k n
          ∙ ap (λ j. bytes_from f (i + 1) k ++ bytes_from f j n) {x = i + 1 + k} {y = i + suc k}
              (omega arith))

pub length-bytes_from : (f : ℕ → ℕ) (i k : ℕ) → length (bytes_from f i k) ≡ k
unfolding bytes_from
length-bytes_from f i zero = refl
length-bytes_from f i (suc k) = ap suc (length-bytes_from f (i + 1) k)

pub copy_to_below : (buf : ℕ → ℕ) (i : ℕ) (xs : List ℕ) (j : ℕ) → j < i → copy_to buf i xs j ≡ buf j
unfolding copy_to
copy_to_below buf i [] j l = refl
copy_to_below buf i (x ∷ xs) j l =
    copy_to_below (update buf i x) (i + 1) xs j (omega arith) ∙ update_ne buf i j x (omega arith)

pub copy_to_lem :
    (buf : ℕ → ℕ) (i : ℕ) (xs : List ℕ) → bytes_from (copy_to buf i xs) i (length xs) ≡ xs
unfolding copy_to bytes_from
copy_to_lem buf i [] = refl
copy_to_lem buf i (x ∷ xs) =
    ap₂ ◌∷◌ (copy_to_below (update buf i x) (i + 1) xs i (omega arith) ∙ update_self buf i x)
      (copy_to_lem (update buf i x) (i + 1) xs)

pub copy_to_above :
    (buf : ℕ → ℕ) (i : ℕ) (xs : List ℕ) (j : ℕ) → i + length xs ≤ j → copy_to buf i xs j ≡ buf j
unfolding copy_to
copy_to_above buf i [] j l = refl
copy_to_above buf i (x ∷ xs) j l =
    copy_to_above (update buf i x) (i + 1) xs j (omega arith) ∙ update_ne buf i j x (omega arith)
