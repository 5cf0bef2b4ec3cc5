-- ===== src/MessageQueue/Channel/Members.antt =====
-- src/shared/message_queue.rs: messages and packets that are among others.
use cobalt_rs.Common.{ℕ, ◌≡◌, refl, sym, subst, inl, inr, List, [], ◌∷◌, ◌++◌, All, All-map}
use cobalt_rs.Message.{
  MessageKind, instant, reliable, ordered, Message, IsWellFormed, messages_from_packet,
}
use cobalt_rs.MessageQueue.Sends.{HasKind, of_kind}
use cobalt_rs.MessageQueue.Ordering.{Elem}
use cobalt_rs.MessageQueue.Sends.{is_kind}
use cobalt_rs.Common.{if◌then◌else◌}
use cobalt_rs.MessageQueue.Channel.{Among}

pub Elem-left : (m : Message) (xs ys : List Message) → Elem m xs → Elem m (xs ++ ys)
Elem-left m [] ys h = absurd h
Elem-left m (x ∷ xs) ys (inl e) = inl e
Elem-left m (x ∷ xs) ys (inr h) = inr (Elem-left m xs ys h)

pub Elem-last : (m : Message) (xs : List Message) → Elem m (xs ++ m ∷ [])
Elem-last m [] = inl refl
Elem-last m (x ∷ xs) = inr (Elem-last m xs)

pub All-Among :
    (P : List ℕ → Type 0) (p : List ℕ) (ps : List (List ℕ)) → All P ps → Among p ps → P p
All-Among P p [] h a = absurd a
All-Among P p (x ∷ ps) h (inl e) = subst P (sym e) h.0
All-Among P p (x ∷ ps) h (inr a) = All-Among P p ps h.1 a

pub of_kind-HasKind : (ms : List Message) → All (HasKind ordered) (of_kind ordered ms)
of_kind-HasKind [] = tt
of_kind-HasKind (m ∷ ms) = by_kind m.kind refl (of_kind-HasKind ms)
  where
    by_kind :
        (k : MessageKind)
        → m.kind ≡ k
        → All (HasKind ordered) (of_kind ordered ms)
        → All
            (HasKind ordered)
            (if is_kind ordered k then m ∷ of_kind ordered ms else of_kind ordered ms)
    by_kind instant e rest = rest
    by_kind reliable e rest = rest
    by_kind ordered e rest = (e, rest)

-- What is on its way is well-formed, and its ordered messages were sent.
abbrev pub Sound : List Message → List ℕ → Type 0
Sound sent payload =
    All IsWellFormed (messages_from_packet payload)
    × All (λ m. Elem m sent) (of_kind ordered (messages_from_packet payload))

pub Sound-mono :
    (sent : List Message) (m : Message) (payload : List ℕ)
    → Sound sent payload
    → Sound (sent ++ m ∷ []) payload
Sound-mono sent m payload h = (
  h.0,
  All-map (λ x e. Elem-left x sent (m ∷ []) e) (of_kind ordered (messages_from_packet payload)) h.1,
)
