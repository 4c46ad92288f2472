-- ===== src/Tests/Tokens.antt =====
-- Join tokens at concrete inputs, with a hash that returns its input.
use chainctl.Prelude.{
  ◌∙◌, ap, sym, ◌+◌, ◌*◌, ◌≤◌, ◌<◌, ◌≡◌, refl, ◌↔◌, inl, false, none, some, List, [], ◌∷◌, ◌++◌,
  arith,
}
use chainctl.Result.{Result, ok}
use chainctl.Text.{Str, str_eq, split}
use chainctl.Text.Laws.{str_eq_apart}
use chainctl.Dict.{lookup, insert}
use chainctl.Tokens.{
  CreateOptions, Token, CreatedToken, Entropy, scope_worker, scope_control_plane, hour, max_ttl,
  hex_encode, split_token, hash_secret, compare_secret, generate_token, check_token, token_consumed,
  before,
}
use chainctl.Tokens.MemoryStore.{MemoryStore, new_memory_store, create, consume}
use chainctl.Tokens.SingleUse.{
  Call, create_call, consume_call, accepted_at_most_issued, acceptances, issues,
}
use chainctl.Tokens.Outcome.{IsValid, consume-nil_iff, consume_frame}
use chainctl.Tokens.RoundTrip.{split_token-composite, generate_token-expires, create-consume_once}

abbrev plain_hash : Str → Str
plain_hash s = s

abbrev worker_options : CreateOptions
worker_options = record { scope = scope_worker; ttl = before 0; created_by = []; description = [] }

abbrev two_bytes : Entropy
two_bytes = record { for_id = some (1 ∷ []); for_secret = some (2 ∷ []) }

abbrev worker_composite : Str
worker_composite = hex_encode (1 ∷ []) ++ b'.' ∷ hex_encode (2 ∷ [])

abbrev one_token_twice : List Call
one_token_twice =
    create_call worker_options 5 two_bytes
    ∷ consume_call worker_composite scope_worker 6
    ∷ consume_call worker_composite scope_worker 7
    ∷ []

accepted_at_most_issued_example :
    acceptances plain_hash (hex_encode (1 ∷ [])) one_token_twice new_memory_store
    ≤ issues plain_hash (hex_encode (1 ∷ [])) one_token_twice
accepted_at_most_issued_example =
    accepted_at_most_issued plain_hash (hex_encode (1 ∷ [])) one_token_twice

-- The token is accepted once.
accepts_one_token_once :
    acceptances plain_hash (hex_encode (1 ∷ [])) one_token_twice new_memory_store ≡ 1
unfolding acceptances consume split_token split hex_encode lookup create generate_token str_eq
    scope_worker insert check_token compare_secret hash_secret
accepts_one_token_once = refl

abbrev worker_store : MemoryStore
worker_store = (create plain_hash worker_options 5 two_bytes new_memory_store).1

consume-nil_iff_example :
    ((consume plain_hash worker_composite scope_worker 6 worker_store).0 ≡ none)
    ↔ IsValid plain_hash worker_composite scope_worker 6 worker_store
consume-nil_iff_example = consume-nil_iff plain_hash worker_composite scope_worker 6 worker_store

ids_apart : str_eq (hex_encode (3 ∷ [])) (hex_encode (1 ∷ [])) ≡ false
unfolding hex_encode str_eq
ids_apart = refl

ok_pair : {A E : Type 0} {a b : A} → Path (Result E A) (ok a) (ok b) → a ≡ b
ok_pair h = cc

consume_frame_example :
    lookup (hex_encode (3 ∷ [])) (consume plain_hash worker_composite scope_worker 6 worker_store).1
    ≡ lookup (hex_encode (3 ∷ [])) worker_store
consume_frame_example =
    consume_frame plain_hash worker_composite scope_worker 6 worker_store (hex_encode (3 ∷ [])) (
      inl (λ id secret splits is.
        str_eq_apart (hex_encode (3 ∷ [])) (hex_encode (1 ∷ [])) ids_apart
          (is ∙ ap (λ p. p.0) (ok_pair (sym splits ∙ split_token-composite 1 2 [] [])))))

abbrev worker_created : CreatedToken
worker_created = record {
  id = hex_encode (1 ∷ []);
  scope = scope_worker;
  expires_at = 5 + 2 * hour;
  created_by = [];
  description = [];
  token = worker_composite;
}

abbrev worker_token : Token
worker_token = record {
  id = hex_encode (1 ∷ []);
  scope = scope_worker;
  expires_at = 5 + 2 * hour;
  hashed_secret = hash_secret plain_hash (hex_encode (1 ∷ [])) (hex_encode (2 ∷ []));
  created_by = [];
  description = [];
  consumed = false;
}

generates : generate_token plain_hash worker_options 5 two_bytes ≡ ok (worker_token, worker_created)
unfolding generate_token str_eq scope_worker
generates = refl

generate_token-expires_example :
    (5 < 5 + 2 * hour) × (5 + 2 * hour ≤ 5 + max_ttl) × (5 + 2 * hour ≡ 5 + 2 * hour)
generate_token-expires_example =
    generate_token-expires plain_hash worker_options 5 two_bytes generates

creates :
    create plain_hash worker_options 5 two_bytes new_memory_store
    ≡ (ok worker_created, worker_store)
unfolding create generate_token str_eq scope_worker
creates = refl

create-consume_once_example :
    let (e, used) = consume plain_hash worker_composite scope_worker 6 worker_store in
    (e ≡ none)
    × ((consume plain_hash worker_composite scope_control_plane 9 used).0 ≡ some token_consumed)
create-consume_once_example =
    create-consume_once plain_hash worker_options 5 1 2 [] [] new_memory_store creates 6 9
      scope_control_plane (omega arith)
