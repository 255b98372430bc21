-- ===== src/Rpc/Common.antt =====
-- What the handlers share, from src/opencode_a2a/jsonrpc/handlers/common.py: responses, and chains of
-- checks that may stop a handler with one.
use opencode_a2a_serve.Base.Names.{
  String, ◌<>◌, not, List, [], ◌∷◌, ◌⊎◌, inl, inr, map, ◌≡◌, refl, arith,
}
use opencode_a2a_serve.Base.Equality.{string_eq, contains, if◌then◌else◌}
use opencode_a2a_serve.Base.Int.{ℤ}
use opencode_a2a_serve.Base.Equality.{nat_eq}
use opencode_a2a_serve.Base.Sort.{sorted}
use opencode_a2a_serve.Base.Lists.{select}
use opencode_a2a_serve.Base.Text.{is_truthy, text_leb}
use opencode_a2a_serve.Base.Value.{Value, Fields, dict, end, field}
use opencode_a2a_serve.Rpc.Errors.{RpcError, invalid_fields}

-- A request without an id is a notification.
pub data RequestId : Type 0 where
  notification : RequestId
  text_id : String → RequestId
  number_id : ℤ → RequestId

-- `error_response` adapts the error to the protocol version of the request.
pub data Response : Type 0 where
  no_content : Response
  success_response : RequestId → Value → Response
  error_response : RequestId → RpcError → Response

-- A step that stops the handler with a response, or goes on with a value.
infixl 5 ◌>>=◌
abbrev pub Checked : Type 0 → Type 0
Checked A = Response ⊎ A

-- A step that fails, or goes on
abbrev pub ◌>>=◌ : {E A B : Type 0} → E ⊎ A → (A → E ⊎ B) → E ⊎ B
inl failure >>= f = inl failure
inr a >>= f = f a

-- A chain of checks that goes on has passed each of them.
pub bind_inr :
    {E A B : Type 0} (m : E ⊎ A) (f : A → E ⊎ B) (b : B)
    → (m >>= f) ≡ inr b
    → (a : A) × (m ≡ inr a) × (f a ≡ inr b)
bind_inr (inl failure) f b h = absurd (ground arith)
bind_inr (inr a) f b h = (a, refl, h)

pub either-cases : {A B : Type 0} (x : A ⊎ B) → ((a : A) × (x ≡ inl a)) ⊎ ((b : B) × (x ≡ inr b))
either-cases (inl a) = inl (a, refl)
either-cases (inr b) = inr (b, refl)

-- `build_success_response`
unfoldable pub build_success_response : RequestId → Fields → Response
build_success_response notification result = no_content
build_success_response (text_id i) result = success_response (text_id i) (dict result)
build_success_response (number_id n) result = success_response (number_id n) (dict result)

-- The keys of a dict
abbrev pub names_of : Fields → List String
names_of end = []
names_of (field k v rest) = k ∷ names_of rest

-- `sorted(set(payload) - set(allowed_fields))`
unfoldable pub unknown_names : List String → Fields → List String
unknown_names allowed payload =
    sorted text_leb (select (λ name. not (contains allowed name)) (names_of payload))

-- `sep.join(texts)`
unfoldable pub join : String → List String → String
join sep [] = ""
join sep (s ∷ []) = s
join sep (s ∷ t ∷ rest) = s <> sep <> join sep (t ∷ rest)

-- `reject_unknown_fields`
unfoldable pub reject_unknown_fields :
    RequestId → Fields → List String → String → String → Checked (Unit {0})
reject_unknown_fields id payload allowed field_prefix message_prefix =
    elim (unknown_names allowed payload) [
      | [] ↦ inr tt
      | name ∷ rest ↦
          let reported : List String =
            if is_truthy field_prefix
            then map (λ n. field_prefix <> n) (name ∷ rest)
            else name ∷ rest in
          inl (
            error_response id
              (invalid_fields (message_prefix <> ": " <> join ", " reported) reported))
    ]
