-- ===== src/Packet/Maps.antt =====
-- `ParamsMap`: which binding of a key is read.
use medge_net.Prelude.{
  ◌≡◌, refl, List, [], ◌∷◌, ◌++◌, Bytes, arith, equal, equal_iff, if◌then◌else◌,
}
use medge_net.Packet.{Kv, Params, set_param, set_params, params_map, param}

pub param-set_param :
    (k j v : Bytes) (m : Params) → param (set_param k v m) j ≡ (if equal k j then v else param m j)
unfolding set_param param
param-set_param k j v [] = ground arith
param-set_param k j v (q ∷ m) =
    ground (arith, equal_iff q.key k, equal_iff q.key j, equal_iff k j, param-set_param k j v m)

set_params-append :
    (ps qs : List Kv) (out : Params) → set_params (ps ++ qs) out ≡ set_params qs (set_params ps out)
unfolding set_params
set_params-append [] qs out = refl
set_params-append (p ∷ ps) qs out = set_params-append ps qs (set_param p.key p.value out)

-- Reading any key `j` of the map built from `ps` followed by one more line `k=v` gives `v` if `j`
-- is `k`, and otherwise what the map built from `ps` alone gives: the last line of a key wins.
pub param-params_map-snoc :
    (ps : List Kv) (k v j : Bytes)
    → param (params_map (ps ++ (record { key = k; value = v }) ∷ [])) j
      ≡ (if equal k j then v else param (params_map ps) j)
unfolding params_map
param-params_map-snoc ps k v j = rw set_params-append (param-set_param k j v (set_params ps []))
