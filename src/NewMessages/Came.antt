-- ===== src/NewMessages/Came.antt =====
-- Which messages come to a conversation: the loops of `doMsgNew` of
-- internal/conversation_msg/conversation_msg.go.
use openim_sdk_core.Prelude.{
  ◌≡◌, refl, sym, subst, List, [], ◌∷◌, String, string_eq, All, ◌⊎◌, inl, inr, map,
}
use mathlib.Core.List.{Mem, mem-cons_self, mem-cons_of_mem}
use openim_sdk_core.Prelude.Map.{Map, lookup}
use openim_sdk_core.History.{LocalChatLog}
use openim_sdk_core.History.Pulled.{slice_to_map}
use openim_sdk_core.NewMessages.{Incoming}
use openim_sdk_core.NewMessages.Loop.{Content}
use openim_sdk_core.NewMessages.Stored.{Parsed, parse_conversation, parse_all}
use openim_sdk_core.NewMessages.Dated.{IsDated, parse_messages-Keeps}

-- The message is one of those that come to the conversation.
abbrev pub CameTo : Map String (List Incoming) → String → Incoming → Type 0
CameTo [] id v = ⊥
CameTo ((k, vs) ∷ all) id v = ((k ≡ id) × Mem v vs) ⊎ CameTo all id v

All-mem :
    (P : Incoming → Type 0) (vs : List Incoming) → ((v : Incoming) → Mem v vs → P v) → All P vs
All-mem P [] h = tt
All-mem P (v ∷ vs) h = (h v (mem-cons_self), All-mem P vs (λ w m. h w (mem-cons_of_mem v m)))

came-All :
    (P : String → Incoming → Type 0) (all : Map String (List Incoming))
    → ((id : String) (v : Incoming) → CameTo all id v → P id v)
    → All (λ (batch : String × List Incoming). All (P batch.0) batch.1) all
came-All P [] h = tt
came-All P ((k, vs) ∷ all) h = (
  All-mem (P k) vs (λ v m. h k v (inl (refl, m))),
  came-All P all (λ id v came. h id v (inr came)),
)

parse_all-Keeps :
    (P : String → Incoming → Type 0) (content : Content) (user : String)
    (in_db : String → List String → List LocalChatLog) (all : Map String (List Incoming))
    (p : Parsed)
    → All (λ (batch : String × List Incoming). All (P batch.0) batch.1) all
    → IsDated P p.gathered.conversation_set
    → IsDated P (parse_all content user in_db all p).gathered.conversation_set
unfolding parse_all
parse_all-Keeps P content user in_db [] p came dated = dated
parse_all-Keeps P content user in_db ((k, vs) ∷ all) p came dated =
    let ids = map (λ (v : Incoming). v.client_msg_id) vs in
    parse_all-Keeps P content user in_db all (parse_conversation content user in_db k vs p) came.1 (
      parse_messages-Keeps P k content user (slice_to_map (in_db k ids) []) vs
        (record {
          insert_message = [];
          self_insert_message = [];
          others_insert_message = [];
          update_message = [];
          all = p.gathered;
        })
        came.0 dated)

nothing-IsDated : (P : String → Incoming → Type 0) → IsDated P []
unfolding lookup
nothing-IsDated P id c h = absurd (cc)

-- The latest message of a conversation that the loops gather is one that came to it.
pub parse_all-IsDated :
    (content : Content) (user : String) (in_db : String → List String → List LocalChatLog)
    (all : Map String (List Incoming)) (p : Parsed)
    → p.gathered.conversation_set ≡ []
    → IsDated (CameTo all) (parse_all content user in_db all p).gathered.conversation_set
parse_all-IsDated content user in_db all p none_yet =
    parse_all-Keeps (CameTo all) content user in_db all p
      (came-All (CameTo all) all (λ id v came. came))
      (subst (IsDated (CameTo all)) (sym none_yet) (nothing-IsDated (CameTo all)))
