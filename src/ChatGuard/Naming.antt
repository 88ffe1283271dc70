-- ===== src/ChatGuard/Naming.antt =====
-- src/shared/guards/chat-network.guard.ts, lines 123 to 129: the network that a request names.
use nestjs_ex.ChatGuard.{HttpRequest, RequestId, given_id, id_number, id_text, named_network, or_id}
use nestjs_ex.Prelude.{
  Bool, Bool-cases, Option, Option-cases, ap, if◌then◌else◌, inl, inr, none, refl, some, suc, sym,
  text_eq, true, zero, ◌↔◌, ◌∙◌, ◌≡◌, ◌⊎◌,
}

-- A request for a chat room that has the key of a network in its query or, where the query has none, in its body.
abbrev pub Names : HttpRequest → RequestId → Type 0
Names req id =
    (req.url_includes "/chat-room/" ≡ true)
    × ((given_id req.query_network_id ≡ some id)
        ⊎ ((given_id req.query_network_id ≡ none) × (given_id req.body_network_id ≡ some id)))

given_id-or_id :
    (a b : Option RequestId) (id : RequestId)
    → (given_id (or_id a b) ≡ some id)
      ↔ ((given_id a ≡ some id) ⊎ ((given_id a ≡ none) × (given_id b ≡ some id)))
given_id-or_id none b id = (λ h. inr (refl, h), λ c. elim c [ inl h ↦ cc h | inr (e, h) ↦ h ])
given_id-or_id (some (id_text n)) b id = (λ h. inl h, λ c. elim c [ inl h ↦ h | inr (e, h) ↦ cc e ])
given_id-or_id (some (id_number zero)) b id =
    (λ h. inr (refl, h), λ c. elim c [ inl h ↦ cc h | inr (e, h) ↦ h ])
given_id-or_id (some (id_number (suc n))) b id =
    (λ h. inl h, λ c. elim c [ inl h ↦ h | inr (e, h) ↦ cc e ])

pub named_network_iff :
    (req : HttpRequest) (id : RequestId) → (named_network req ≡ some id) ↔ Names req id
named_network_iff req id =
    let given = given_id (or_id req.query_network_id req.body_network_id) in
    let (to, from) = given_id-or_id req.query_network_id req.body_network_id id in
    let at = λ (c : Bool). if c then given else none in
    elim (Bool-cases (req.url_includes "/chat-room/")) [
      | inl e ↦ (λ h. (e, to (sym (ap at e) ∙ h)), λ (_, c). ap at e ∙ from c)
      | inr e ↦ (λ h. cc (sym (ap at e) ∙ h), λ (e', _). cc (e, e'))
    ]

pub unnamed_iff :
    (req : HttpRequest) → (named_network req ≡ none) ↔ ¬ ((id : RequestId) × Names req id)
unnamed_iff req = (
  λ e (id, names). let h = (named_network_iff req id).1 names in cc (e, h),
  λ none_named. elim (Option-cases (named_network req)) [
    | inl e ↦ e
    | inr (id, h) ↦ absurd (none_named (id, (named_network_iff req id).0 h))
  ],
)
