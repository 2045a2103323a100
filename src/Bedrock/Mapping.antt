-- ===== src/Bedrock/Mapping.antt =====
-- The two adapters for Claude models map a conversation in the same way.
use llm_gateway_platform.Prelude.{
  String, ◌≡◌, refl, sym, ap, List, [], ◌∷◌, ◌++◌, map, str_eq, Bool-cases, inl, inr,
}
use llm_gateway_platform.Provider.{Message, ChatRequest, role_system}
use llm_gateway_platform.Anthropic
use llm_gateway_platform.Bedrock.{
  WireMsg, Part, fold_messages, join_system, body_of, concat_text, map_stop_reason,
}

abbrev pub to_anthropic : WireMsg → Anthropic.WireMsg
to_anthropic m = record { role = m.role; content = m.content }

abbrev pub part_to_anthropic : Part → Anthropic.ContentPart
part_to_anthropic p = record { type = p.type; text = p.text }

map-snoc :
    (l : List WireMsg) (m : WireMsg)
    → map to_anthropic (l ++ m ∷ []) ≡ map to_anthropic l ++ to_anthropic m ∷ []
map-snoc [] m = refl
map-snoc (x ∷ l) m = ap (to_anthropic x ∷◌) (map-snoc l m)

fold_messages_agree :
    (ms : List Message) (system : String) (sent : List WireMsg)
    → ((fold_messages ms system sent).0
        ≡ (Anthropic.fold_messages ms system (map to_anthropic sent)).0)
      × (map to_anthropic (fold_messages ms system sent).1
          ≡ (Anthropic.fold_messages ms system (map to_anthropic sent)).1)
unfolding fold_messages Anthropic.fold_messages join_system Anthropic.join_system
fold_messages_agree [] system sent = (refl, refl)
fold_messages_agree (m ∷ ms) system sent = elim (Bool-cases (str_eq m.role role_system)) [
  | inl e ↦ rw e (fold_messages_agree ms (join_system system m.content) sent)
  | inr e ↦
      rw (e, sym (map-snoc sent (record { role = m.role; content = m.content })))
        (fold_messages_agree ms system (sent ++ record { role = m.role; content = m.content } ∷ []))
]

concat_text_agree :
    (parts : List Part) → concat_text parts ≡ Anthropic.concat_text (map part_to_anthropic parts)
unfolding concat_text Anthropic.concat_text
concat_text_agree [] = refl
concat_text_agree (p ∷ parts) = rw (concat_text_agree parts) refl

-- Bedrock and Anthropic get the same token limit, system prompt and messages for a request, and read
-- the same text and finish reason from a reply.
pub claude_adapters_agree :
    {F : Type 0} (req : ChatRequest F) (parts : List Part) (reason : String)
    → ((body_of req).max_tokens ≡ (Anthropic.body_of req).max_tokens)
      × ((body_of req).system ≡ (Anthropic.body_of req).system)
      × (map to_anthropic (body_of req).messages ≡ (Anthropic.body_of req).messages)
      × (concat_text parts ≡ Anthropic.concat_text (map part_to_anthropic parts))
      × (map_stop_reason reason ≡ Anthropic.map_stop_reason reason)
unfolding body_of Anthropic.body_of map_stop_reason Anthropic.map_stop_reason
claude_adapters_agree req parts reason =
    let same = fold_messages_agree req.messages req.system [] in
    (refl, same.0, same.1, concat_text_agree parts, refl)
