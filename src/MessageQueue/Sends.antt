-- ===== src/MessageQueue/Sends.antt =====
-- What a packet takes from the three outgoing queues, kind by kind.
use cobalt_rs.Common.{
  ℕ, ◌+◌, ◌≡◌, refl, sym, ap, subst, ◌∙◌, List, [], ◌∷◌, ◌++◌, Bool, true, false, arith, All,
  append_assoc, All-append_right, All-append_left, if◌then◌else◌,
}
use cobalt_rs.Message.{MessageKind, instant, reliable, ordered, Message, serialize_all}
use cobalt_rs.MessageQueue.{MessageQueue}
use cobalt_rs.MessageQueue.Writer.{Written}
use cobalt_rs.MessageQueue.Writer.Laws.{Wrote, cost, cost-append, serialize_all-append}

abbrev pub is_kind : MessageKind → MessageKind → Bool
is_kind instant instant = true
is_kind reliable reliable = true
is_kind ordered ordered = true
is_kind _ _ = false

-- The messages of one kind, in their order.
abbrev pub of_kind : MessageKind → List Message → List Message
of_kind k [] = []
of_kind k (m ∷ ms) = if is_kind k m.kind then m ∷ of_kind k ms else of_kind k ms

abbrev pub HasKind : MessageKind → Message → Type 0
HasKind k m = m.kind ≡ k

pub of_kind-append :
    (k : MessageKind) (xs ys : List Message) → of_kind k (xs ++ ys) ≡ of_kind k xs ++ of_kind k ys
of_kind-append k [] ys = refl
of_kind-append k (x ∷ xs) ys = ground (arith, of_kind-append k xs ys)

is_kind_self : (k : MessageKind) → is_kind k k ≡ true
is_kind_self k = ground arith

of_kind-All : (k : MessageKind) (ms : List Message) → All (HasKind k) ms → of_kind k ms ≡ ms
of_kind-All k [] h = refl
of_kind-All k (m ∷ ms) h = ground (arith, h.0, is_kind_self k, of_kind-All k ms h.1)

of_kind_other :
    (k j : MessageKind) (ms : List Message)
    → is_kind k j ≡ false
    → All (HasKind j) ms
    → of_kind k ms ≡ []
of_kind_other k j [] e h = refl
of_kind_other k j (m ∷ ms) e h = rw (h.0, e) (of_kind_other k j ms e h.1)

split_trans :
    (k : MessageKind) (ms ns : List Message) {xs ys : List Message} (zs : List Message)
    → xs ≡ of_kind k ms ++ ys
    → ys ≡ of_kind k ns ++ zs
    → xs ≡ of_kind k (ms ++ ns) ++ zs
split_trans k ms ns zs p q =
    p
    ∙ ap (◌++◌ (of_kind k ms)) q
    ∙ sym (append_assoc (of_kind k ms) (of_kind k ns) zs)
    ∙ sym (ap (λ t. t ++ zs) (of_kind-append k ms ns))

module _ {F : Type 0} where
  -- Each outgoing queue holds messages of its own kind.
  pub record KindsMatch (q : MessageQueue F) : Type 0 where
    pub all_i : All (HasKind instant) q.i_queue
    pub all_r : All (HasKind reliable) q.r_queue
    pub all_o : All (HasKind ordered) q.o_queue

  -- `q'` is `q` without the messages `out`: those of each kind were the first of their queue, in
  -- this order; the packet holds them serialized, and `written` counts them.
  pub record Sends (q : MessageQueue F) (packet : List ℕ) (written : ℕ) (q' : MessageQueue F)
      (packet' : List ℕ) (written' : ℕ) (out : List Message) : Type 0 where
    pub sends_i : q.i_queue ≡ of_kind instant out ++ q'.i_queue
    pub sends_r : q.r_queue ≡ of_kind reliable out ++ q'.r_queue
    pub sends_o : q.o_queue ≡ of_kind ordered out ++ q'.o_queue
    pub others : q' ≡ record q { i_queue = q'.i_queue; r_queue = q'.r_queue; o_queue = q'.o_queue }
    pub appended : packet' ≡ packet ++ serialize_all out
    pub counted : written' ≡ written + cost out

  pub Sends-trans :
      {q q' q'' : MessageQueue F} {p p' p'' : List ℕ} {w w' w'' : ℕ} (ms ns : List Message)
      → Sends q p w q' p' w' ms
      → Sends q' p' w' q'' p'' w'' ns
      → Sends q p w q'' p'' w'' (ms ++ ns)
  Sends-trans {q} {q'} {q''} {p} ms ns s t = record {
    sends_i = split_trans instant ms ns q''.i_queue s.sends_i t.sends_i;
    sends_r = split_trans reliable ms ns q''.r_queue s.sends_r t.sends_r;
    sends_o = split_trans ordered ms ns q''.o_queue s.sends_o t.sends_o;
    others =
        t.others
        ∙ ap {A = MessageQueue F} {B = MessageQueue F}
            (λ x. record x { i_queue = q''.i_queue; r_queue = q''.r_queue; o_queue = q''.o_queue })
            s.others;
    appended =
        t.appended
        ∙ ap (λ x. x ++ serialize_all ns) s.appended
        ∙ append_assoc p (serialize_all ms) (serialize_all ns)
        ∙ sym (ap (◌++◌ p) (serialize_all-append ms ns));
    counted = omega (arith, s.counted, t.counted, cost-append ms ns);
  }

  -- A writer that ran on one of the queues.
  pub Wrote-Sends_i :
      (q : MessageQueue F) {p : List ℕ} {n : ℕ} (w : Written) (out : List Message)
      → KindsMatch q
      → Wrote q.i_queue p n w out
      → Sends q p n (record q { i_queue = w.queue }) w.packet w.written out
  Wrote-Sends_i q w out k h =
      let own : All (HasKind instant) out = All-append_left _ out w.queue (rw h.split at k.all_i) in
      record {
        sends_i = rw (of_kind-All instant out own) h.split;
        sends_r = rw (of_kind_other reliable instant out refl own);
        sends_o = rw (of_kind_other ordered instant out refl own);
        others = refl;
        appended = h.appended;
        counted = h.counted;
      }

  pub Wrote-Sends_r :
      (q : MessageQueue F) {p : List ℕ} {n : ℕ} (w : Written) (out : List Message)
      → KindsMatch q
      → Wrote q.r_queue p n w out
      → Sends q p n (record q { r_queue = w.queue }) w.packet w.written out
  Wrote-Sends_r q w out k h =
      let own : All (HasKind reliable) out =
        All-append_left _ out w.queue (rw h.split at k.all_r) in
      record {
        sends_i = rw (of_kind_other instant reliable out refl own);
        sends_r = rw (of_kind-All reliable out own) h.split;
        sends_o = rw (of_kind_other ordered reliable out refl own);
        others = refl;
        appended = h.appended;
        counted = h.counted;
      }

  pub Wrote-Sends_o :
      (q : MessageQueue F) {p : List ℕ} {n : ℕ} (w : Written) (out : List Message)
      → KindsMatch q
      → Wrote q.o_queue p n w out
      → Sends q p n (record q { o_queue = w.queue }) w.packet w.written out
  Wrote-Sends_o q w out k h =
      let own : All (HasKind ordered) out = All-append_left _ out w.queue (rw h.split at k.all_o) in
      record {
        sends_i = rw (of_kind_other instant ordered out refl own);
        sends_r = rw (of_kind_other reliable ordered out refl own);
        sends_o = rw (of_kind-All ordered out own) h.split;
        others = refl;
        appended = h.appended;
        counted = h.counted;
      }

  pub KindsMatch-Sends :
      {q q' : MessageQueue F} {p p' : List ℕ} {w w' : ℕ} (out : List Message)
      → KindsMatch q
      → Sends q p w q' p' w' out
      → KindsMatch q'
  KindsMatch-Sends {q} {q'} out k s = record {
    all_i =
        All-append_right _ (of_kind instant out) q'.i_queue
          (subst (All (HasKind instant)) s.sends_i k.all_i);
    all_r =
        All-append_right _ (of_kind reliable out) q'.r_queue
          (subst (All (HasKind reliable)) s.sends_r k.all_r);
    all_o =
        All-append_right _ (of_kind ordered out) q'.o_queue
          (subst (All (HasKind ordered)) s.sends_o k.all_o);
  }
