-- ===== src/Stream/Registry.antt =====
-- One client for each address: `singletons`, `getOrCreateWsClient` and `destroyWsClient` of
-- frontend-chart/src/lib/wsClient.ts. The clients are objects that callers share, so the registry
-- holds their state and a caller names a client by its address.
use test_v.Shared.{false, ◌≡◌, none, some, List, [], inl, inr, Option-cases}
use test_v.Shared.Text.{Text, text_eq}
use test_v.Shared.JsMap.{get, put, delete, get-put_self, get-put_ne, get-delete_self, get-delete_ne}
use test_v.Stream.{WsClientConfig, WsClient, Effect, new_client}
use test_v.Stream.Socket.{update_config, destroy}

unfoldable pub get_or_create :
    {F : Type 0} → Text → WsClientConfig F → List (Text × WsClient F) → List (Text × WsClient F)
get_or_create url config registry = elim (get url registry) [
  | none ↦ put url (update_config config (new_client config)) registry
  | some c ↦ put url (update_config config c) registry
]

unfoldable pub destroy_client :
    {F : Type 0}
    → (R : Type 0) → Text
    → List (Text × WsClient F)
    → List (Text × WsClient F) × List (Effect R F)
destroy_client R url registry = elim (get url registry) [
  | none ↦ (registry, [])
  | some c ↦ (delete url registry, (destroy {R = R} c).1)
]

-- The client of an address is the one that is there, with the new configuration, or a new one.
pub get-get_or_create :
    {F : Type 0} (url : Text) (config : WsClientConfig F) (registry : List (Text × WsClient F))
    → get url (get_or_create url config registry) ≡ (elim (get url registry) [
      | none ↦ some (new_client config)
      | some c ↦ some (record c { config = config })
    ])
unfolding get_or_create update_config new_client
get-get_or_create url config registry = elim (Option-cases (get url registry)) [
  | inl e ↦ rw (e, get_or_create) (get-put_self url _ registry)
  | inr (c, e) ↦ rw (e, get_or_create) (get-put_self url _ registry)
]

-- No other address is touched by either call, and a destroyed address has no client.
pub get-registry_ne :
    (R : Type 0) {F : Type 0} (url other : Text) (config : WsClientConfig F)
    (registry : List (Text × WsClient F))
    → text_eq url other ≡ false
    → (get other (get_or_create url config registry) ≡ get other registry)
      × (get other (destroy_client R url registry).0 ≡ get other registry)
      × (get url (destroy_client R url registry).0 ≡ none)
unfolding get_or_create destroy_client
get-registry_ne R url other config registry h = elim (Option-cases (get url registry)) [
  | inl e ↦ (
    rw (e, get_or_create) (get-put_ne url other _ registry h),
    rw (e, destroy_client),
    rw (e, destroy_client) e,
  )
  | inr (c, e) ↦ (
    rw (e, get_or_create) (get-put_ne url other _ registry h),
    rw (e, destroy_client) (get-delete_ne url other registry h),
    rw (e, destroy_client) (get-delete_self url registry),
  )
]
