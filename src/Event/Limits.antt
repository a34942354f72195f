-- ===== src/Event/Limits.antt =====
-- armatureanalytics/event.go: the sizes of what an event carries.
use mcp_analytics_go.Prelude.{
  ℕ, ◌≤◌, ◌≡◌, refl, ◌∙◌, inl, inr, Bool, true, false, ◌&&◌, Option, none, some, Text, bytes,
  is_empty, text_eq, length, leb, leb→le, if◌then◌else◌, if_cases, Bool-cases, arith,
}
use mcp_analytics_go.Json.{
  Value, Fields, boolean, object, string, lookup_field, put_field, lookup_field-put_field,
  remove_field,
}
use mcp_analytics_go.Client.{ClientInfo}
use mcp_analytics_go.Sanitize.Budget.{length-truncate_utf8}
use mcp_analytics_go.Event.{
  max_preview_bytes, max_source_bytes, max_request_meta_bytes, Env, Payload, plain, is_nil,
  stringify_preview,
}
use mcp_analytics_go.Event.Prepare.{ToolCallInput, Candidate}
use mcp_analytics_go.Event.Build.{
  put_text, has_fields, fits_capabilities, put_capabilities, merge_client_info, capped_meta,
  cap_request_meta, put_request_meta, input_preview_of, call_metadata, tool_call_metadata,
  result_preview_of, source_of, assemble_tool_call_event,
}

-- An optional text of at most so many bytes.
abbrev pub Within : ℕ → Option Text → Type 0
Within n none = Unit
Within n (some s) = length s ≤ n

pub lookup-put_other :
    (key k : Text) (v : Value) (m : Fields)
    → text_eq key k ≡ false
    → lookup_field k (put_field key v m) ≡ lookup_field k m
lookup-put_other key k v m h = lookup_field-put_field key k v m ∙ rw h refl

pub lookup-put_same :
    (key : Text) (v : Value) (m : Fields)
    → text_eq key key ≡ true
    → lookup_field key (put_field key v m) ≡ some v
lookup-put_same key v m h = lookup_field-put_field key key v m ∙ rw h refl

pub lookup-put_text :
    (key k s : Text) (m : Fields)
    → text_eq key k ≡ false
    → lookup_field k (put_text key s m) ≡ lookup_field k m
lookup-put_text key k s m h =
    if_cases (λ r. lookup_field k r ≡ lookup_field k m) (is_empty s) (λ _. refl)
      (λ _. lookup-put_other key k (string s) m h)

module _ {T D : Type 0} (env : Env T D) where
  pub lookup-put_capabilities :
      (k : Text) (capabilities : Option Fields) (m : Fields)
      → text_eq (bytes "capabilities") k ≡ false
      → lookup_field k (put_capabilities env capabilities m) ≡ lookup_field k m
  unfolding put_capabilities
  lookup-put_capabilities k none m h = refl
  lookup-put_capabilities k (some c) m h =
      if_cases (λ r. lookup_field k r ≡ lookup_field k m)
        (has_fields c && fits_capabilities (env.marshal (plain (object c))))
        (λ _. lookup-put_other (bytes "capabilities") k (object c) m h) (λ _. refl)

  lookup-merge_client_info :
      (k : Text) (info : Option ClientInfo) (m : Fields)
      → text_eq (bytes "client_name") k ≡ false
      → text_eq (bytes "client_version") k ≡ false
      → text_eq (bytes "protocol_version") k ≡ false
      → text_eq (bytes "capabilities") k ≡ false
      → lookup_field k (merge_client_info env info m) ≡ lookup_field k m
  unfolding merge_client_info
  lookup-merge_client_info k none m n v p c = refl
  lookup-merge_client_info k (some info) m n v p c =
      lookup-put_capabilities k info.capabilities _ c
      ∙ lookup-put_text (bytes "protocol_version") k info.protocol_version _ p
      ∙ lookup-put_text (bytes "client_version") k info.version _ v
      ∙ lookup-put_text (bytes "client_name") k info.name m n

  -- What may stand under request_meta: a text within the limit, or a map whose encoding is within it.
  abbrev pub MetaFits : Value → Type 0
  MetaFits (string s) = length s ≤ max_request_meta_bytes
  MetaFits (object m) =
      (s : Text) × (env.marshal (plain (object m)) ≡ some s) × (length s ≤ max_request_meta_bytes)
  MetaFits _ = ⊥

  capped_meta-MetaFits :
      (m : Fields) (data_text : Option Text)
      → env.marshal (plain (object m)) ≡ data_text
      → MetaFits (capped_meta env m data_text).0
  unfolding capped_meta bytes
  capped_meta-MetaFits m none encoded = omega arith
  capped_meta-MetaFits m (some s) encoded =
      if_cases (λ (r : Value × Bool). MetaFits r.0) (leb (length s) max_request_meta_bytes)
        (λ h. (s, encoded, leb→le _ _ h)) (λ _. length-truncate_utf8 s max_request_meta_bytes)

  cap_request_meta-MetaFits : (m : Fields) → MetaFits (cap_request_meta env m).0
  unfolding cap_request_meta
  cap_request_meta-MetaFits m = capped_meta-MetaFits m (env.marshal (plain (object m))) refl

  lookup-put_request_meta :
      (k : Text) (request_meta m : Fields)
      → text_eq (bytes "request_meta") k ≡ false
      → text_eq (bytes "request_meta_truncated") k ≡ false
      → lookup_field k (put_request_meta env request_meta m) ≡ lookup_field k m
  unfolding put_request_meta
  lookup-put_request_meta k request_meta m r t =
      let value = (cap_request_meta env request_meta).0 in
      let with_value = lookup-put_other (bytes "request_meta") k value m r in
      if_cases (λ f. lookup_field k f ≡ lookup_field k m) (has_fields request_meta)
        (λ _.
          if_cases (λ f. lookup_field k f ≡ lookup_field k m) (cap_request_meta env request_meta).1
            (λ _.
              lookup-put_other (bytes "request_meta_truncated") k (boolean true) _ t ∙ with_value)
            (λ _. with_value))
        (λ _. refl)

  request_meta-put_request_meta :
      (request_meta m : Fields)
      → has_fields request_meta ≡ true
      → lookup_field (bytes "request_meta") (put_request_meta env request_meta m)
        ≡ some (cap_request_meta env request_meta).0
  unfolding put_request_meta bytes text_eq
  request_meta-put_request_meta request_meta m h =
      let value = (cap_request_meta env request_meta).0 in
      let key = bytes "request_meta" in
      let with_value = lookup-put_same key value m refl in
      rw h (
        if_cases (λ f. lookup_field key f ≡ some value) (cap_request_meta env request_meta).1
          (λ _.
            lookup-put_other (bytes "request_meta_truncated") key (boolean true) _ refl
            ∙ with_value)
          (λ _. with_value))

  result_preview_of-Within :
      (output : Payload) → Within max_preview_bytes (result_preview_of env output).0
  unfolding result_preview_of
  result_preview_of-Within output =
      if_cases (λ (r : Option Text × Bool). Within max_preview_bytes r.0) (is_nil output) (λ _. tt)
        (λ _. length-truncate_utf8 (stringify_preview env output) max_preview_bytes)

  input_preview-call_metadata :
      (candidate : Candidate D)
      → lookup_field (bytes "input_preview") (call_metadata env candidate)
        ≡ some (string (input_preview_of env candidate))
  unfolding call_metadata bytes text_eq
  input_preview-call_metadata candidate = lookup-put_same (bytes "input_preview") _ _ refl

  abbrev pub marked : Bool → Fields → Fields
  marked capability_request m =
      if capability_request then put_field (bytes "capability_request") (boolean true) m else m

  lookup-marked :
      (k : Text) (b : Bool) (m : Fields)
      → text_eq (bytes "capability_request") k ≡ false
      → lookup_field k (marked b m) ≡ lookup_field k m
  lookup-marked k true m h = lookup-put_other (bytes "capability_request") k (boolean true) m h
  lookup-marked k false m h = refl

  metadata-input_preview :
      (input : ToolCallInput T) (candidate : Candidate D)
      → lookup_field (bytes "input_preview") (tool_call_metadata env input candidate)
        ≡ some (string (input_preview_of env candidate))
  unfolding tool_call_metadata bytes text_eq
  metadata-input_preview input candidate =
      let key = bytes "input_preview" in
      lookup-merge_client_info key input.client_info _ refl refl refl refl
      ∙ lookup-put_request_meta key input.request_meta _ refl refl
      ∙ lookup-marked key input.capability_request _ refl
      ∙ input_preview-call_metadata candidate

  -- What stands under a key, if anything does.
  abbrev pub FoundFits : Option Value → Type 0
  FoundFits none = Unit
  FoundFits (some v) = MetaFits v

  no_request_meta :
      (input : ToolCallInput T) (candidate : Candidate D)
      → lookup_field (bytes "request_meta") (call_metadata env candidate) ≡ none
  unfolding call_metadata bytes text_eq lookup_field put_field remove_field
  no_request_meta input candidate = refl

  found-FoundFits : (o : Option Value) (v : Value) → o ≡ some v → MetaFits v → FoundFits o
  found-FoundFits o v e fits = rw e fits

  missing-FoundFits : (o : Option Value) → o ≡ none → FoundFits o
  missing-FoundFits o e = rw e tt

  put_request_meta-FoundFits :
      (request_meta m : Fields)
      → lookup_field (bytes "request_meta") m ≡ none
      → FoundFits (lookup_field (bytes "request_meta") (put_request_meta env request_meta m))
  unfolding put_request_meta
  put_request_meta-FoundFits request_meta m e = elim (Bool-cases (has_fields request_meta)) [
    | inl h ↦
        found-FoundFits _ _ (request_meta-put_request_meta request_meta m h)
          (cap_request_meta-MetaFits request_meta)
    | inr h ↦ missing-FoundFits _ (rw h e)
  ]

  metadata-FoundFits :
      (input : ToolCallInput T) (candidate : Candidate D)
      → FoundFits (lookup_field (bytes "request_meta") (tool_call_metadata env input candidate))
  unfolding tool_call_metadata bytes text_eq
  metadata-FoundFits input candidate =
      let key = bytes "request_meta" in
      rw (lookup-merge_client_info key input.client_info _ refl refl refl refl) (
        put_request_meta-FoundFits input.request_meta _
          (lookup-marked key input.capability_request _ refl ∙ no_request_meta input candidate))

  -- Whatever a tool call holds, its event has a source of at most 32768 bytes, previews of the
  -- arguments, under input_preview, and of the result of at most 8192 bytes, and what stands under
  -- request_meta, if anything does, is a text of at most 4096 bytes or a map whose JSON encoding has
  -- at most 4096 bytes.
  pub assemble-Within :
      (input : ToolCallInput T) (candidate : Candidate D) (raw : ℕ → ℕ)
      → Within max_source_bytes (assemble_tool_call_event env input candidate raw).script_source
        × Within max_preview_bytes (assemble_tool_call_event env input candidate raw).result_preview
        × ((s : Text) × (lookup_field
                (bytes "input_preview")
                (assemble_tool_call_event env input candidate raw).metadata
              ≡ some (string s))
            × (length s ≤ max_preview_bytes))
        × FoundFits (
            lookup_field
              (bytes "request_meta")
              (assemble_tool_call_event env input candidate raw).metadata)
  unfolding assemble_tool_call_event source_of input_preview_of
  assemble-Within input candidate raw = (
    length-truncate_utf8 _ max_source_bytes,
    result_preview_of-Within candidate.output,
    (
      input_preview_of env candidate,
      metadata-input_preview input candidate,
      length-truncate_utf8 _ max_preview_bytes,
    ),
    metadata-FoundFits input candidate,
  )
