-- ===== src/Types/Text/Decimal.antt =====
-- Reading back the decimal digits of `u64::to_string`.
use Prim.Native.Char.{code}
use native.Mathlib.Nat.{pow-suc}
use text.Mathlib.TextLemmas.{nil-append, cons-append}
use Prim.Native.String.{◌++◌ as ◌<>◌}
use wu_kong_easy_sdk_rust.Base.{
  ℕ, zero, suc, ◌+◌, ◌-◌, ◌*◌, ◌/◌, ◌%◌, ◌^◌, ◌<◌, String, ◌≡◌, refl, arith, ltb, Bool-cases, inl,
  inr, ltb→lt,
}
use wu_kong_easy_sdk_rust.Types.Text.{digit, decimal, to_decimal}

-- The number that a run of digits stands for, after those that made `acc`.
pub read_digits : ℕ → String → ℕ
read_digits acc String.[] = acc
read_digits acc (String.◌∷◌ c s) = read_digits (acc * 10 + (code c - 48)) s

read_digits-append :
    (acc : ℕ) (s t : String) → read_digits acc (s <> t) ≡ read_digits (read_digits acc s) t
unfolding read_digits
read_digits-append acc String.[] t = rw nil-append
read_digits-append acc (String.◌∷◌ c s) t =
    rw cons-append (read_digits-append (acc * 10 + (code c - 48)) s t)

read_digits-digit : (d acc : ℕ) → d < 10 → read_digits acc (digit d) ≡ acc * 10 + d
unfolding read_digits digit
read_digits-digit zero acc h = refl
read_digits-digit (suc zero) acc h = refl
read_digits-digit (suc (suc zero)) acc h = refl
read_digits-digit (suc (suc (suc zero))) acc h = refl
read_digits-digit (suc (suc (suc (suc zero)))) acc h = refl
read_digits-digit (suc (suc (suc (suc (suc zero))))) acc h = refl
read_digits-digit (suc (suc (suc (suc (suc (suc zero)))))) acc h = refl
read_digits-digit (suc (suc (suc (suc (suc (suc (suc zero))))))) acc h = refl
read_digits-digit (suc (suc (suc (suc (suc (suc (suc (suc zero)))))))) acc h = refl
read_digits-digit (suc (suc (suc (suc (suc (suc (suc (suc (suc zero))))))))) acc h = refl
read_digits-digit _ acc h = absurd (omega arith)

read_digits-decimal : (f n : ℕ) → n < 10 ^ f → read_digits 0 (decimal f n) ≡ n
unfolding decimal
read_digits-decimal zero n h = unfold read_digits in omega arith
read_digits-decimal (suc f) n h = elim (Bool-cases (ltb n 10)) [
  | inl small ↦ rw small (omega (arith, read_digits-digit n 0 (ltb→lt n 10 small)))
  | inr big ↦
      let bound : n < 10 ^ f * 10 = simp pow-suc at h in
      rw
        (
          big,
          read_digits-append 0 (decimal f (n / 10)) (digit (n % 10)),
          read_digits-decimal f (n / 10) (omega arith),
          read_digits-digit (n % 10) (n / 10) (omega arith),
        )
        (omega arith)
]

-- Reading the decimal text of a `u64` gives the number back.
pub read_digits-to_decimal : (n : ℕ) → n < 2 ^ 64 → read_digits 0 (to_decimal n) ≡ n
unfolding to_decimal
read_digits-to_decimal n h = read_digits-decimal 20 n (omega arith)
