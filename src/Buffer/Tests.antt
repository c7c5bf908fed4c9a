-- ===== src/Buffer/Tests.antt =====
-- A buffer of three bytes.
use luaxx.Base.{◌<◌, ◌≤◌, ◌≡◌, List, [], ◌∷◌, length, codes, arith}
use luaxx.Buffer.{limit, buffinit, push_result}
use luaxx.Buffer.Result.{Addition, bytes, value, all_added, add_all, collected}

abbrev additions : List Addition
additions =
    bytes (codes "abcd") ∷ value (codes "ef") ∷ value (codes "long one") ∷ bytes (codes "g") ∷ []

collected_example :
    ((push_result (add_all 3 additions (buffinit (codes "below" ∷ [])))).stack
      ≡ all_added additions ∷ codes "below" ∷ [])
    × ((add_all 3 additions (buffinit (codes "below" ∷ []))).lvl < limit)
    × (length (add_all 3 additions (buffinit (codes "below" ∷ []))).chars ≤ 3)
collected_example = collected 3 (codes "below" ∷ []) (omega arith) additions
