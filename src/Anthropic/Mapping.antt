-- ===== src/Anthropic/Mapping.antt =====
-- How the Anthropic adapter maps a request.
use mathlib.Core.List.{foldl, append-nil, append_assoc}
use llm_gateway_platform.Prelude.{
  String, ◌≡◌, refl, sym, ◌∙◌, Bool, not, List, [], ◌∷◌, ◌++◌, map, str_eq, Bool-cases, inl, inr,
  filter,
}
use llm_gateway_platform.Prelude.Dict.{lookup}
use llm_gateway_platform.Provider.{Message, ChatRequest, role_system}
use llm_gateway_platform.Anthropic.{WireMsg, join_system, fold_messages, user_id, body_of}

abbrev pub is_system : Message → Bool
is_system m = str_eq m.role role_system

abbrev pub wire : Message → WireMsg
wire m = record { role = m.role; content = m.content }

-- The system prompt: the request's own, and then those of the system messages in order.
abbrev pub system_of : String → List Message → String
system_of = foldl (λ s (m : Message). join_system s m.content)

fold_messages_lem :
    (ms : List Message) (system : String) (sent : List WireMsg)
    → fold_messages ms system sent ≡ (
      system_of system (filter is_system ms),
      sent ++ map wire (filter (λ m. not (is_system m)) ms),
    )
unfolding fold_messages
fold_messages_lem [] system sent = λ i. (system, sym (append-nil sent) i)
fold_messages_lem (m ∷ ms) system sent = elim (Bool-cases (is_system m)) [
  | inl e ↦ rw e (fold_messages_lem ms (join_system system m.content) sent)
  | inr e ↦ rw e (
      fold_messages_lem ms system (sent ++ wire m ∷ []) ∙ (λ i. (
        system_of system (filter is_system ms),
        append_assoc sent (wire m ∷ []) (map wire (filter (λ m. not (is_system m)) ms)) i,
      )))
]

-- The body of a Messages call: the model and the token limit are those of the request; the system
-- messages leave the conversation and are joined, in order, to the request's system prompt; the other
-- messages follow in their order; the metadata is the entry `user_id`, if it is not empty.
pub messages_body :
    {F : Type 0} (req : ChatRequest F)
    → ((body_of req).model ≡ req.model)
      × ((body_of req).max_tokens ≡ req.max_tokens)
      × ((body_of req).system ≡ system_of req.system (filter is_system req.messages))
      × ((body_of req).messages ≡ map wire (filter (λ m. not (is_system m)) req.messages))
      × ((body_of req).metadata ≡ user_id (lookup "user_id" req.metadata))
unfolding body_of
messages_body req =
    let split = fold_messages_lem req.messages req.system [] in
    (refl, refl, λ i. (split i).0, λ i. (split i).1, refl)
