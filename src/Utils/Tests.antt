-- ===== src/Utils/Tests.antt =====
-- The string functions of src/utils/xps_utils.c on concrete paths.
use nw_lab.Prelude.{◌≡◌, ◌↔◌, refl, true, codes}
use nw_lab.Utils.{str_starts_with}
use nw_lab.Utils.Prefix.{IsUnder, str_starts_with-IsUnder}

str_starts_with-IsUnder_example :
    (str_starts_with (codes "/api/v1") (codes "/api") ≡ true)
    ↔ IsUnder (codes "/api/v1") (codes "/api")
str_starts_with-IsUnder_example =
    str_starts_with-IsUnder (codes "/api/v1") (codes "/api")
      (refl, (refl, (refl, (refl, (refl, (refl, (refl, tt)))))))
