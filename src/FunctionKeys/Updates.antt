-- ===== src/FunctionKeys/Updates.antt =====
-- Configuring a key.
use scim_googlepinyin.Prelude.{
  ◌≡◌, refl, Bool, true, false, List, [], ◌∷◌, ◌++◌, arith, ◌||◌, if◌then◌else◌,
}
use scim_googlepinyin.Scim.{Scim, KeyEvent}
use scim_googlepinyin.FunctionKeys.{contains, remove, update_keys}

-- `KeyEvent::operator==` is an equality test: reflexive, symmetric and transitive.
pub record IsKeyEquality (k : Scim) : Type 0 where
  pub same_refl : (a : KeyEvent) → k.same_key a a ≡ true
  pub same_sym : (a b : KeyEvent) → k.same_key a b ≡ k.same_key b a
  pub same_trans : (a b c : KeyEvent) → k.same_key a b ≡ true → k.same_key a c ≡ k.same_key b c

module _ (k : Scim) where
  contains-append :
      (keys : List KeyEvent) (x e : KeyEvent)
      → contains k (keys ++ x ∷ []) e ≡ (contains k keys e || k.same_key x e)
  unfolding contains
  contains-append [] x e = ground arith
  contains-append (y ∷ keys) x e = ground (arith, contains-append keys x e)

  -- Removing a key removes all that are equal to it, and no other.
  contains-remove :
      (eq : IsKeyEquality k) (keys : List KeyEvent) (x e : KeyEvent)
      → contains k (remove k keys x) e ≡ (if k.same_key x e then false else contains k keys e)
  unfolding contains remove
  contains-remove eq [] x e = ground arith
  contains-remove eq (y ∷ keys) x e = ground (
    arith,
    contains-remove eq keys x e,
    eq.same_trans y x e,
    eq.same_trans x e y,
    eq.same_sym y x,
    eq.same_sym y e,
  )

  contains-same :
      (eq : IsKeyEquality k) (keys : List KeyEvent) (x e : KeyEvent)
      → k.same_key x e ≡ true
      → contains k keys x ≡ contains k keys e
  unfolding contains
  contains-same eq [] x e h = refl
  contains-same eq (y ∷ keys) x e h =
      ground (
        arith,
        contains-same eq keys x e h,
        eq.same_sym y x,
        eq.same_sym y e,
        eq.same_trans x e y h,
      )

-- After a key was enabled or disabled, the keys equal to it are in the list just if it was enabled,
-- and every other key is in it just if it was before.
pub contains-update_keys :
    (k : Scim) (eq : IsKeyEquality k) (keys : List KeyEvent) (x e : KeyEvent) (enabled : Bool)
    → contains k (update_keys k keys x enabled) e
      ≡ (if k.same_key x e then enabled else contains k keys e)
unfolding update_keys
contains-update_keys k eq keys x e true =
    ground (arith, contains-append k keys x e, contains-same k eq keys x e)
contains-update_keys k eq keys x e false = contains-remove k eq keys x e
