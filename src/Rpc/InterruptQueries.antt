-- ===== src/Rpc/InterruptQueries.antt =====
-- `handle_interrupt_query_request` of src/opencode_a2a/jsonrpc/handlers/interrupt_queries.py, with the
-- methods of src/opencode_a2a/opencode_upstream_client.py that list requests.
pub mod Own
pub mod Tests
use opencode_a2a_serve.Base.Names.{
  ℕ, String, Bool, true, false, Option, none, some, List, [], ◌∷◌, ◌⊎◌, inl, inr,
}
use opencode_a2a_serve.Base.Equality.{if◌then◌else◌}
use opencode_a2a_serve.Base.Int.{pos}
use opencode_a2a_serve.Base.Text.{is_truthy, strip}
use opencode_a2a_serve.Base.Value.{
  Value, Items, Fields, null, int, str, array, dict, nil, cons, end, field,
}
use opencode_a2a_serve.Interrupts.Contract.{InterruptRequestBinding}
use opencode_a2a_serve.Rpc.Errors.{str_or_null, internal_error}
use opencode_a2a_serve.Rpc.Common.{
  RequestId, Response, error_response, Checked, build_success_response, reject_unknown_fields,
}

-- The methods that are routed to the handler
pub data InterruptListing : Type 0 where
  list_permissions list_questions : InterruptListing

pub record ListingRequest : Type 0 where
  pub id : RequestId
  pub method : InterruptListing
  pub params : Fields
  pub user_identity : Option String

details_value : Option Fields → Value
details_value none = null
details_value (some details) = dict details

-- `_binding_to_result_item`
unfoldable pub binding_to_result_item : InterruptRequestBinding → Value
unfolding details_value
binding_to_result_item b = dict (
    field "request_id" (str b.request_id) (
      field "session_id" (str_or_null b.session_id) (
        field "interrupt_type" (str_or_null b.interrupt_type) (
          field "task_id" (str_or_null b.task_id) (
            field "context_id" (str_or_null b.context_id) (
              field "details" (details_value b.details)
                (field "expires_at" (int (pos b.expires_at)) end)))))))

abbrev pub result_items : List InterruptRequestBinding → Items
result_items [] = nil
result_items (b ∷ rest) = cons (binding_to_result_item b) (result_items rest)

abbrev pub listed : List InterruptRequestBinding → Fields
listed bindings = field "items" (array (result_items bindings)) end

-- The type of interrupt that `list_permission_requests` and `list_question_requests` ask for
abbrev pub type_of : InterruptListing → String
type_of list_permissions = "permission"
type_of list_questions = "question"

-- `request_identity.strip() if isinstance(request_identity, str) else ""`
abbrev pub stripped_identity : Option String → String
stripped_identity none = ""
stripped_identity (some identity) = strip identity

-- `list_pending` of a repository is an argument.
module _ {State : Type 0}
    (list_pending : String → Option String → ℕ → State → List InterruptRequestBinding × State) where
  -- `list_interrupt_requests`
  unfoldable pub list_interrupt_requests :
      String → Option String → ℕ → State → List InterruptRequestBinding × State
  list_interrupt_requests identity interrupt_type now st =
      if is_truthy (strip identity)
      then list_pending (strip identity) interrupt_type now st
      else ([], st)

  -- The `try` block: the bindings, or the text of an exception
  respond :
      ListingRequest
      → Option String
      → List InterruptRequestBinding × State
      → State
      → Response × State
  respond r (some message) listing st = (error_response r.id (internal_error message), st)
  respond r none (bindings, st') st = (build_success_response r.id (listed bindings), st')

  after_fields : ListingRequest → ℕ → Option String → State → Checked (Unit {0}) → Response × State
  unfolding respond list_interrupt_requests
  after_fields r now raised st (inl response) = (response, st)
  after_fields r now raised st (inr u) =
      let identity = stripped_identity r.user_identity in
      if is_truthy identity
      then respond r raised (list_interrupt_requests identity (some (type_of r.method)) now st) st
      else (build_success_response r.id (listed []), st)

  -- `handle_interrupt_query_request`. `raised` is the text of the exception of a repository that fails.
  unfoldable pub handle_interrupt_query_request :
      ListingRequest → ℕ → Option String → State → Response × State
  unfolding after_fields
  handle_interrupt_query_request r now raised st =
      after_fields r now raised st (reject_unknown_fields r.id r.params [] "" "Unsupported fields")
