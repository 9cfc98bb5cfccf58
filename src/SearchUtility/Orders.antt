-- ===== src/SearchUtility/Orders.antt =====
-- The order by score and length.
use scim_googlepinyin.Prelude.{◌≡◌}
use scim_googlepinyin.Prelude.Int.{pos}
use scim_googlepinyin.SearchUtility.{LmaPsbItem, cmp_lpi_with_unified_psb}

-- The comparison does not say that the first item stands behind the second.
abbrev pub NotBehind : LmaPsbItem → LmaPsbItem → Type 0
NotBehind p1 p2 = ¬ (cmp_lpi_with_unified_psb p1 p2 ≡ pos 1)
