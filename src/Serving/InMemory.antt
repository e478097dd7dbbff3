-- ===== src/Serving/InMemory.antt =====
-- internal/store/mock_store.go as the store of the servers.
use openclaw_cortex.Base.{ℕ, String, Bool, true, Option, none, some, List}
use openclaw_cortex.Base.Float.{Float}
use openclaw_cortex.Base.Strings.{Strings}
use openclaw_cortex.Models.{Memory}
use openclaw_cortex.Store.Mock.{
  MockStore, Reply, ok, not_found, upsert, get, delete, list, search, update_access_metadata,
  get_entity, search_entities,
}
use openclaw_cortex.Store.Mock.Stats.{stats}
use openclaw_cortex.Recall.{Recaller}
use openclaw_cortex.Serving.{Found, found, missing, Backend}

abbrev found_of : {A : Type 0} → Reply A → Found A
found_of (ok a) = found a
found_of not_found = missing

abbrev pub memory_of : {F : Type 0} → Reply (Memory F) → Option (Memory F)
memory_of (ok m) = some m
memory_of not_found = none

abbrev pub in_memory_backend :
    (fl : Float)
    → Strings
    → (String → Option (List (fl.Number)))
    → (String → String → Bool)
    → (String → String)
    → ℕ
    → Recaller (fl.Number)
    → Backend (fl.Number) (MockStore (fl.Number))
in_memory_backend fl st embed id_less preview now r = record {
  embed = embed;
  upsert = λ at m vec s. (upsert at m vec s, true);
  get = λ id s. found_of (get id s);
  delete = λ id s. let (t, reply) = delete id s in (t, found_of reply);
  list = λ f limit cursor s. some (list id_less f limit cursor s);
  search = λ vec limit f s. some (search fl vec limit f s);
  update_access_metadata = λ id s. (update_access_metadata now id s).0;
  stats = λ s. some (stats preview now s);
  get_entity = λ id s. found_of (get_entity id s);
  search_entities =
      λ name type limit s. some (search_entities (st.to_lower) (st.contains) name type limit s);
  recaller = λ s. record r { get = λ id. memory_of (get id s) };
}
