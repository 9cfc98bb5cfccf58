-- ===== src/Tests/Keys.antt =====
-- The equality of keys of the small engine, and the theorem on configuring a key at concrete keys.
use scim_googlepinyin.Prelude.{◌≡◌, false, [], ◌∷◌, arith, if◌then◌else◌}
use scim_googlepinyin.FunctionKeys.{contains, update_keys}
use scim_googlepinyin.FunctionKeys.Updates.{IsKeyEquality, contains-update_keys}
use scim_googlepinyin.Tests.Engine.{x_keys, press}

pub x_keys-IsKeyEquality : IsKeyEquality x_keys
x_keys-IsKeyEquality = record {
  same_refl = λ a. ground arith;
  same_sym = λ a b. ground arith;
  same_trans = λ a b c h. ground arith;
}

contains-update_keys_example :
    contains x_keys
      (update_keys x_keys (press b',' ∷ press b'-' ∷ []) (press b',') false)
      (press b'-')
    ≡ (if x_keys.same_key (press b',') (press b'-')
        then false
        else contains x_keys (press b',' ∷ press b'-' ∷ []) (press b'-'))
contains-update_keys_example =
    contains-update_keys x_keys x_keys-IsKeyEquality (press b',' ∷ press b'-' ∷ []) (press b',')
      (press b'-') false
