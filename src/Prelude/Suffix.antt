-- ===== src/Prelude/Suffix.antt =====
-- `s.endswith(t)` and `s[:-n]` in terms of concatenation: a text that ends in another is its front
-- and that one.
use Prim.Native.Nat.{ℕ, zero, suc, ◌+◌, ◌-◌, ◌≤◌, ◌<◌, compare as compare_ℕ}
use Prim.Native.Char.{Char, len_utf8}
use Prim.Native.String.slice
use Prim.Native.String.len
use Prim.Native.String.append
use Prim.Native.String.{String, [], ◌∷◌, ◌++◌, slice, len, fits}
use mathlib.Core.Path.{◌≡◌, sym, ap, ◌∙◌}
use mathlib.Core.Bool.{true}
use mathlib.Core.Logic.{◌⊎◌, inl, inr}
use native.Mathlib.Omega.{arith}
use native.Mathlib.Decide.{dec_lt}
use text.Mathlib.TextPositions.{slice_all, slice-zero-zero, slice-append_left, len-append}
use text.Mathlib.TextLemmas.{append_assoc}
use text.Mathlib.TextEquality.{eq_iff}
use ledger_sdk.Prelude.Tests.{and_right}
use ledger_sdk.Prelude.Text.{ends_with, drop_last}

fits-le : (c : Char) (r : String) (w n : ℕ) → fits (compare_ℕ w (w + n)) c r ≡ c ∷ r
fits-le c r w n = ground arith

slice_taken :
    (c : Char) (s : String) (n : ℕ) → slice (c ∷ s) zero (len_utf8 c + n) ≡ c ∷ slice s zero n
slice_taken c s n =
    slice.cons-zero c s (len_utf8 c + n)
    ∙ fits-le c (slice s zero (len_utf8 c + n - len_utf8 c)) (len_utf8 c) n
    ∙ ap (λ k. c ∷ slice s zero k) (omega arith)

-- From a later position, which the first character may reach past.
slice_passed :
    (c : Char) (s : String) (k n : ℕ)
    → slice (c ∷ s) (suc k) (len_utf8 c + n) ≡ slice s (suc k - len_utf8 c) n
slice_passed c s k n =
    slice.cons-suc c s k (len_utf8 c + n) ∙ ap (λ b. slice s (suc k - len_utf8 c) b) (omega arith)

suffix_step :
    (c : Char) (s t : String) (k : ℕ)
    → ((a : ℕ) → len s ≡ a + len t → slice s a (len s) ≡ t → slice s zero a ++ t ≡ s)
    → len_utf8 c + len s ≡ suc k + len t
    → slice (c ∷ s) (suc k) (len_utf8 c + len s) ≡ t
    → (suc k < len_utf8 c) ⊎ (len_utf8 c ≤ suc k)
    → slice (c ∷ s) zero (suc k) ++ t ≡ c ∷ s
suffix_step c s t k rec e h (inl short) =
    absurd (omega (arith, e, ap len (all s (suc k - len_utf8 c) (omega arith) h'), short))
  where
    h' : slice s (suc k - len_utf8 c) (len s) ≡ t
    h' = sym (slice_passed c s k (len s)) ∙ h

    all : (s : String) (a : ℕ) → a ≡ zero → slice s a (len s) ≡ t → s ≡ t
    all s a z q = sym (slice_all s) ∙ ap (λ b. slice s b (len s)) (sym z) ∙ q
suffix_step c s t k rec e h (inr long) =
    ap (λ b. slice (c ∷ s) zero b ++ t) (omega (arith, long))
    ∙ ap (λ u. u ++ t) (slice_taken c s (suc k - len_utf8 c))
    ∙ append.cons c (slice s zero (suc k - len_utf8 c)) t
    ∙ ap (λ u. c ∷ u)
        (rec (suc k - len_utf8 c) (omega (arith, e, long)) (sym (slice_passed c s k (len s)) ∙ h))

short_or_long : (a b : ℕ) → (a < b) ⊎ (b ≤ a)
short_or_long a b = elim (dec_lt a b) [ yes h ↦ inl h | no h ↦ inr (omega arith) ]

suffix_split :
    (s t : String) (k : ℕ) → len s ≡ k + len t → slice s k (len s) ≡ t → slice s zero k ++ t ≡ s
suffix_split [] t k e h =
    ap (λ u. u ++ t) (slice.nil zero k) ∙ append.nil t ∙ sym h ∙ slice.nil k (len [])
suffix_split (c ∷ s) t zero e h =
    ap (λ u. u ++ t) (slice-zero-zero (c ∷ s)) ∙ append.nil t ∙ sym h ∙ slice_all (c ∷ s)
suffix_split (c ∷ s) t (suc k) e h =
    suffix_step c s t k (suffix_split s t) (sym (len.cons c s) ∙ e)
      (ap (λ b. slice (c ∷ s) (suc k) b) (sym (len.cons c s)) ∙ h)
      (short_or_long (suc k) (len_utf8 c))

-- A text that ends in `t` is what stands before it, and `t`.
pub ends_with-split : (s t : String) → ends_with s t ≡ true → slice s zero (len s - len t) ++ t ≡ s
ends_with-split s t h =
    suffix_split s t (len s - len t) (ground (arith, h))
      ((eq_iff (slice s (len s - len t) (len s)) t).0 (and_right _ _ h))

-- `s[:-1]` of a text that ends in a star is all but the star.
pub drop_star : (s : String) → ends_with s "*" ≡ true → drop_last 1 s ++ "*" ≡ s
drop_star s h = ends_with-split s "*" h

pub drop_colon_star : (s : String) → ends_with s ":*" ≡ true → drop_last 1 s ++ "*" ≡ s
drop_colon_star s h =
    let front = slice s zero (len s - 2) in
    let whole : front ++ ":*" ≡ s = ends_with-split s ":*" h in
    let regroup : (front ++ ":") ++ "*" ≡ s = append_assoc front ":" "*" ∙ whole in
    let size : len (front ++ ":") + 1 ≡ len s =
      omega (arith, len-append (front ++ ":") "*", ap len regroup) in
    ap (λ u. u ++ "*")
      (ap (λ u. slice u zero (len s - 1)) (sym regroup)
        ∙ ap (λ k. slice ((front ++ ":") ++ "*") zero k) (omega (arith, size))
        ∙ slice-append_left (front ++ ":") "*")
    ∙ regroup
