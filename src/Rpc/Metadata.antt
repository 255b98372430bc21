-- ===== src/Rpc/Metadata.antt =====
-- The metadata of a request and where they send it: the rest of src/opencode_a2a/jsonrpc/handlers/common.py
-- on metadata, and src/opencode_a2a/metadata_access.py.
use opencode_a2a_serve.Base.Names.{
  String, ◌<>◌, Bool, true, false, not, ◌&&◌, Option, none, some, List, [], ◌∷◌, inl, inr, map,
}
use opencode_a2a_serve.Base.Equality.{string_eq, if◌then◌else◌}
use opencode_a2a_serve.Base.Equality.{nat_eq}
use opencode_a2a_serve.Base.Text.{strip, or_none}
use opencode_a2a_serve.Base.Value.{Value, Fields, null, str, dict, end, field, get, as_mapping}
use opencode_a2a_serve.Rpc.Errors.{invalid_field, invalid_fields}
use opencode_a2a_serve.Rpc.Common.{RequestId, Checked, ◌>>=◌, unknown_names, join, error_response}

-- The rest of the path in `extract_namespaced_value`
unfoldable pub follow : List String → Value → Value
follow [] current = current
follow (part ∷ path) (dict fields) = follow path (get part fields)
follow (part ∷ path) current = null

-- `extract_namespaced_value`
unfoldable pub extract_namespaced_value : Value → String → List String → Value
unfolding follow
extract_namespaced_value (dict source) namespace path = elim (get namespace source) [
  | dict current ↦ follow path (dict current)
  | _ ↦ null
]
extract_namespaced_value _ namespace path = null

-- `value is None or isinstance(value, dict)`
abbrev is_object_or_none : Value → Bool
is_object_or_none null = true
is_object_or_none (dict d) = true
is_object_or_none _ = false

-- `_parse_metadata_objects`, with both of its flags
unfoldable pub parse_metadata_objects : RequestId → Fields → Bool → Bool → Checked (Option Fields)
parse_metadata_objects id params strict_top_level validate_shared_object =
    elim (get "metadata" params) [
      | null ↦ inr none
      | dict metadata ↦
          let unknown : List String =
            if strict_top_level then unknown_names ("opencode" ∷ "shared" ∷ []) metadata else [] in
          let prefixed = map (λ n. "metadata." <> n) unknown in
          elim unknown [
            | name ∷ rest ↦ inl (
                error_response id
                  (invalid_fields ("Unsupported metadata fields: " <> join ", " prefixed) prefixed))
            | [] ↦
                if not (is_object_or_none (get "opencode" metadata))
                then inl (
                    error_response id
                      (invalid_field "metadata.opencode must be an object" "metadata.opencode"))
                else if validate_shared_object && not (is_object_or_none (get "shared" metadata))
                then inl (
                    error_response id
                      (invalid_field "metadata.shared must be an object" "metadata.shared"))
                else inr (as_mapping (get "opencode" metadata))
          ]
      | _ ↦ inl (error_response id (invalid_field "metadata must be an object" "metadata"))
    ]

directory_of : RequestId → Option Fields → Checked (Option String)
directory_of id none = inr none
directory_of id (some opencode) =
    elim (extract_namespaced_value (dict (field "opencode" (dict opencode) end)) "opencode"
      ("directory" ∷ [])) [
        | null ↦ inr none
        | str directory ↦ inr (some directory)
        | _ ↦ inl (
            error_response id (
              invalid_field "metadata.opencode.directory must be a string"
                "metadata.opencode.directory"))
      ]

-- `extract_directory_from_metadata`, and `extract_interrupt_callback_directory_hint`, which only
-- calls it
unfoldable pub extract_directory_from_metadata : RequestId → Fields → Checked (Option String)
unfolding directory_of
extract_directory_from_metadata id params = do
  opencode ← parse_metadata_objects id params true true
  directory_of id opencode

workspace_of : RequestId → Option Fields → Checked (Option String)
workspace_of id none = inr none
workspace_of id (some opencode) =
    elim (extract_namespaced_value (dict (field "opencode" (dict opencode) end)) "opencode"
      ("workspace" ∷ [])) [
        | null ↦ inr none
        | dict workspace ↦
            elim (extract_namespaced_value (dict (field "workspace" (dict workspace) end))
              "workspace" ("id" ∷ [])) [
                | null ↦ inr none
                | str workspace_id ↦ inr (or_none (strip workspace_id))
                | _ ↦ inl (
                    error_response id (
                      invalid_field "metadata.opencode.workspace.id must be a string"
                        "metadata.opencode.workspace.id"))
              ]
        | _ ↦ inl (
            error_response id (
              invalid_field "metadata.opencode.workspace must be an object"
                "metadata.opencode.workspace"))
      ]

-- `extract_workspace_id_from_metadata`
unfoldable pub extract_workspace_id_from_metadata : RequestId → Fields → Checked (Option String)
unfolding workspace_of
extract_workspace_id_from_metadata id params = do
  opencode ← parse_metadata_objects id params false false
  workspace_of id opencode

-- What `context.directory_resolver` gives: the directory, or the text of a `ValueError`
pub data Resolved : Type 0 where
  resolved : Option String → Resolved
  refused : String → Resolved

resolved_or : RequestId → String → Resolved → Checked (Option String)
resolved_or id name (resolved directory) = inr directory
resolved_or id name (refused message) = inl (error_response id (invalid_field message name))

-- `resolve_directory`
unfoldable pub resolve_directory :
    (Option String → Resolved) → RequestId → Fields → Checked (Option String)
unfolding resolved_or
resolve_directory resolver id params = do
  directory ← extract_directory_from_metadata id params
  resolved_or id "metadata.opencode.directory" (resolver directory)

-- Where a request goes: a workspace, or a directory
pub data Routing : Type 0 where
  to_workspace : String → Routing
  to_directory : Option String → Routing

routing_of :
    (Option String → Resolved)
    → RequestId
    → Fields
    → Option String
    → Option String
    → Checked Routing
routing_of resolver id params requested (some workspace_id) = inr (to_workspace workspace_id)
routing_of resolver id params (some requested) none = do
  directory ← resolved_or id "directory" (resolver (some requested))
  inr (to_directory directory)
routing_of resolver id params none none = do
  directory ← resolve_directory resolver id params
  inr (to_directory directory)

-- `resolve_routing_context`
unfoldable pub resolve_routing_context :
    (Option String → Resolved) → RequestId → Fields → Option String → Checked Routing
unfolding routing_of resolved_or
resolve_routing_context resolver id params requested_directory = do
  workspace_id ← extract_workspace_id_from_metadata id params
  routing_of resolver id params requested_directory workspace_id
