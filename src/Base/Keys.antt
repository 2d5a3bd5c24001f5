-- ===== src/Base/Keys.antt =====
-- What `Eq` and `Hash` promise of a key type. Keys that are equal in this sense need not be the same
-- value: stack samples are compared without their time and their thread's name.
use Prim.Native.Nat.{ℕ}
use mathlib.Core.Bool.{Bool, true}
use mathlib.Core.Path.{◌≡◌, refl, sym, ap, ◌∙◌}
use mathlib.Core.Logic.{◌↔◌}
use native.Mathlib.Omega.{arith}

pub record Key {ℓ} (T : Type ℓ) : Type ℓ where
  pub equal : T → T → Bool
  pub hash : T → ℕ
  pub equal_refl : (a : T) → equal a a ≡ true
  pub equal_symm : (a b : T) → equal a b ≡ equal b a
  pub equal_trans : (a b c : T) → equal a b ≡ true → equal b c ≡ true → equal a c ≡ true
  pub hash-equal : (a b : T) → equal a b ≡ true → hash a ≡ hash b

module _ {ℓ} {T : Type ℓ} ⦃key : Key T⦄ where
  pub equal_congr_right : (q a b : T) → key.equal a b ≡ true → key.equal q a ≡ key.equal q b
  equal_congr_right q a b e =
      ground (arith, key.equal_symm a b, key.equal_trans q a b, key.equal_trans q b a)

-- A test that compares what two values show is an equality, whatever else they hold; a hash of what
-- they show fits it.
module _ {ℓ κ} {T : Type ℓ} {V : Type κ} (equal : T → T → Bool) (view : T → V)
    (iff : (a b : T) → (equal a b ≡ true) ↔ (view a ≡ view b)) where
  pub view_refl : (a : T) → equal a a ≡ true
  view_refl a = (iff a a).1 refl

  view_symm_true : (a b : T) → equal a b ≡ true → equal b a ≡ true
  view_symm_true a b h = (iff b a).1 (sym ((iff a b).0 h))

  pub view_symm : (a b : T) → equal a b ≡ equal b a
  view_symm a b = ground (arith, view_symm_true a b, view_symm_true b a)

  pub view_trans : (a b c : T) → equal a b ≡ true → equal b c ≡ true → equal a c ≡ true
  view_trans a b c h k = (iff a c).1 ((iff a b).0 h ∙ (iff b c).0 k)

  abbrev pub key_by_view : (V → ℕ) → Key T
  key_by_view finish = record {
    equal = equal;
    hash = λ a. finish (view a);
    equal_refl = view_refl;
    equal_symm = view_symm;
    equal_trans = view_trans;
    hash-equal = λ a b h. ap finish ((iff a b).0 h);
  }
