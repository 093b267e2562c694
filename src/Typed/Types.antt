-- ===== src/Typed/Types.antt =====
-- include/doarr/expr.hpp: the types of the wrappers, and the table of names.
use doarr.Base.{Bytes, codes}

-- class expr and the structs that derive from it, with their template arguments.
mutual
  pub data Ty : Type 0 where
    expr num dim proto_struct noarr_struct type ptr : Ty
    fn tmpl : Ty → Tys → Ty
    var_fn var_tmpl : Ty → Ty → Ty

  pub data Tys : Type 0 where
    nil : Tys
    cons : Ty → Tys → Tys

-- fn_from<Args...>::to<Ret> and its kin
abbrev pub fn_from : Tys → Ty → Ty
fn_from args ret = fn ret args

abbrev pub tmpl_from : Tys → Ty → Ty
tmpl_from args ret = tmpl ret args

abbrev pub var_fn_from : Ty → Ty → Ty
var_fn_from args ret = var_fn ret args

abbrev pub var_tmpl_from : Ty → Ty → Ty
var_tmpl_from args ret = var_tmpl ret args

-- The members of the object `noarr`.
pub data Noarr : Type 0 where
  lit scalar vector sized_vector bcast hoist set_length into_blocks make_bag : Noarr

abbrev one : Ty → Tys
one t = cons t nil

abbrev pub noarr_type : Noarr → Ty
noarr_type lit = tmpl_from (one num) num
noarr_type scalar = tmpl_from (one type) (fn_from nil noarr_struct)
noarr_type vector = tmpl_from (one dim) (fn_from nil proto_struct)
noarr_type sized_vector = tmpl_from (one dim) (fn_from (one num) proto_struct)
noarr_type bcast = var_tmpl_from dim (var_fn_from num proto_struct)
noarr_type hoist = var_tmpl_from dim (fn_from nil proto_struct)
noarr_type set_length = var_tmpl_from dim (var_fn_from num proto_struct)
noarr_type into_blocks = tmpl_from (cons dim (cons dim (one dim))) (fn_from (one num) proto_struct)
noarr_type make_bag = fn_from (cons noarr_struct (one ptr)) expr

abbrev pub noarr_name : Noarr → Bytes
noarr_name lit = codes "noarr::lit"
noarr_name scalar = codes "noarr::scalar"
noarr_name vector = codes "noarr::vector"
noarr_name sized_vector = codes "noarr::sized_vector"
noarr_name bcast = codes "noarr::bcast"
noarr_name hoist = codes "noarr::hoist"
noarr_name set_length = codes "noarr::set_length"
noarr_name into_blocks = codes "noarr::into_blocks"
noarr_name make_bag = codes "noarr::make_bag"
