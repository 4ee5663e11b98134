-- ===== src/Registry/Defs.antt =====
-- `ObjectRegistry` of objectRegistry/object_registry.h, `factory` of message_demo/message_factorys.h and
-- `ActorFactory` of objectpool2/DynamicCreate.cpp. A name is the list of its bytes, and a function that
-- constructs an object is what it constructs.
use tools_demo.Base.{ℕ, Bool, true, false, Option, none, some, List, [], ◌∷◌}
use tools_demo.Base.Dict.{find, emplace}

-- `RegistryMap`
abbrev pub Registry : Type 0 → Type 0
Registry A = List (List ℕ × A)

module _ {A : Type 0} (dec : Discrete (List ℕ)) where
  -- `register_object(name, fn)`
  unfoldable pub register_object : List ℕ → A → Registry A → Registry A
  register_object [] fn r = r
  register_object (c ∷ name) fn r = elim (find dec (c ∷ name) r) [
    | some _ ↦ r
    | none ↦ emplace dec (c ∷ name) fn r
  ]

  -- `NULL` is `none`.
  unfoldable pub get_object : List ℕ → Registry A → Option A
  get_object name r = find dec name r

  -- the constructor of `register_t`
  unfoldable pub register_message : List ℕ → A → Registry A → Registry A
  register_message key create r = emplace dec key create r

  -- `none` is the exception that the key does not exist.
  unfoldable pub produce : List ℕ → Registry A → Option A
  produce key r = find dec key r

  -- `Regist`, whose function may be null: what it returns, and the new map
  unfoldable pub regist : List ℕ → Option A → Registry A → Bool × Registry A
  regist name none r = (false, r)
  regist name (some f) r = elim (find dec name r) [
    | some _ ↦ (false, r)
    | none ↦ (true, emplace dec name f r)
  ]

  -- `Create` of `ActorFactory`. `nullptr` is `none`.
  unfoldable pub create : List ℕ → Registry A → Option A
  create name r = find dec name r
