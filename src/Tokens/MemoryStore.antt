-- ===== src/Tokens/MemoryStore.antt =====
-- `MemoryStore` of pkg/tokens/store.go. A method runs under the store's mutex, so it is one step:
-- it takes the map and returns the map that it leaves. The records are shared by pointer with
-- nobody outside the store.
use chainctl.Prelude.{ℕ, ◌-◌, true, Option, none, some, []}
use chainctl.Result.{Result, ok, err}
use chainctl.Text.{Str}
use chainctl.Dict.{Dict, lookup, insert}
use chainctl.Tokens.{
  Scope, Error, token_not_found, CreateOptions, Token, CreatedToken, Entropy, split_token,
  generate_token, check_token,
}

abbrev pub MemoryStore : Type 0
MemoryStore = Dict Token

abbrev pub new_memory_store : MemoryStore
new_memory_store = []

abbrev pub minute : ℕ
minute = 60_000_000_000

module _ (sha256 : Str → Str) where
  -- The write of `Create`, once the token is generated.
  store_created :
      Result Error (Token × CreatedToken) → MemoryStore → Result Error CreatedToken × MemoryStore
  store_created (err e) s = (err e, s)
  store_created (ok (record', created)) s = (ok created, insert record'.id record' s)

  unfoldable pub create :
      CreateOptions → ℕ → Entropy → MemoryStore → Result Error CreatedToken × MemoryStore
  unfolding store_created
  create opts now entropy s = store_created (generate_token sha256 opts now entropy) s

  -- `record.Consumed = true`, if every check passed
  mark_consumed : Option Error → Str → Token → MemoryStore → Option Error × MemoryStore
  mark_consumed (some e) id record' s = (some e, s)
  mark_consumed none id record' s = (none, insert id (record record' { consumed = true }) s)

  consume_found : Option Token → Str → Str → ℕ → Scope → MemoryStore → Option Error × MemoryStore
  unfolding mark_consumed
  consume_found none id secret now expected s = (some token_not_found, s)
  consume_found (some record') id secret now expected s =
      mark_consumed (check_token sha256 record' id secret now expected) id record' s

  consume_parts : Result Error (Str × Str) → ℕ → Scope → MemoryStore → Option Error × MemoryStore
  unfolding consume_found
  consume_parts (err e) now expected s = (some e, s)
  consume_parts (ok (id, secret)) now expected s =
      consume_found (lookup id s) id secret now expected s

  -- `none` is the error nil.
  unfoldable pub consume : Str → Scope → ℕ → MemoryStore → Option Error × MemoryStore
  unfolding consume_parts
  consume composite expected now s = consume_parts (split_token composite) now expected s

expire_found : Option Token → Str → ℕ → MemoryStore → MemoryStore
expire_found none id now s = s
expire_found (some record') id now s = insert id (record record' { expires_at = now - minute }) s

expire_parts : Result Error (Str × Str) → ℕ → MemoryStore → MemoryStore
unfolding expire_found
expire_parts (err e) now s = s
expire_parts (ok (id, _)) now s = expire_found (lookup id s) id now s

unfoldable pub force_expire : Str → ℕ → MemoryStore → MemoryStore
unfolding expire_parts
force_expire composite now s = expire_parts (split_token composite) now s
