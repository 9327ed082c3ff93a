-- ===== src/Gossip/Propagate/Offered.antt =====
-- Each content is offered to its recipients, and only to them.
use trin.Prelude.{
  ℕ, ◌≡◌, refl, sym, ap, ◌∙◌, subst, ◌↔◌, ◌⊎◌, inl, inr, Bool, Option, none, some, List, [], ◌∷◌,
  In, here, there,
}
use trin.Gossip.{Node, Env, interested_enrs, calculate_interested_enrs}
use trin.Gossip.Propagate.{
  Item, push_item, Texts, connected_nodes, push_to_all, enrs_and_content, request_to,
  offer_requests, propagate_to, propagate_gossip_cross_thread,
}
use trin.Gossip.Propagate.Requests.{Has, push_item-Has, push_item_new, Has-push_item}

module _ {NodeId Enr ContentKey : Type 0} (env : Env NodeId Enr ContentKey)
    (texts : Texts Enr ContentKey) where
  push_to_all-Has :
      (item : Item) (enrs : List Enr) (m : List (List ℕ × List Item)) (t : List ℕ) (i : Item)
      → Has m t i
      → Has (push_to_all env texts item enrs m) t i
  push_to_all-Has item [] m t i h = h
  push_to_all-Has item (e ∷ enrs) m t i h =
      push_to_all-Has item enrs _ t i (push_item-Has (texts.to_base64 e) item m t i h)

  push_to_all_new :
      (item : Item) (enr : Enr) (enrs : List Enr) (m : List (List ℕ × List Item))
      → In enr enrs
      → Has (push_to_all env texts item enrs m) (texts.to_base64 enr) item
  push_to_all_new item enr [] m k = elim k [ ]
  push_to_all_new item enr (_ ∷ enrs) m (here _) =
      push_to_all-Has item enrs _ (texts.to_base64 enr) item
        (push_item_new (texts.to_base64 enr) item m)
  push_to_all_new item enr (e ∷ enrs) m (there _ _ k) = push_to_all_new item enr enrs _ k

  Has-push_to_all :
      (item : Item) (enrs : List Enr) (m : List (List ℕ × List Item)) (t : List ℕ) (i : Item)
      → Has (push_to_all env texts item enrs m) t i
      → Has m t i ⊎ ((e : Enr) × In e enrs × (texts.to_base64 e ≡ t) × (i ≡ item))
  Has-push_to_all item [] m t i h = inl h
  Has-push_to_all item (e ∷ enrs) m t i h =
      elim (Has-push_to_all item enrs (push_item (texts.to_base64 e) item m) t i h) [
        | inl old ↦ elim (Has-push_item (texts.to_base64 e) item m t i old) [
          | inl older ↦ inl older
          | inr (same, new) ↦ inr (e, here enrs, same, new)
        ]
        | inr (f, k, same, new) ↦ inr (f, there e enrs k, same, new)
      ]

  -- A content, and a recipient of it.
  abbrev pub IsRecipient : List (Node NodeId Enr) → List (ContentKey × List ℕ) → Enr → Item → Type 0
  IsRecipient all_nodes content enr i =
      (c : ContentKey × List ℕ) × In c content
      × In enr (calculate_interested_enrs env c.0 all_nodes)
      × (i ≡ (texts.raw_key c.0, c.1))

  enrs_and_content-Has :
      (all_nodes : List (Node NodeId Enr)) (content : List (ContentKey × List ℕ))
      (m : List (List ℕ × List Item)) (t : List ℕ) (i : Item)
      → Has m t i
      → Has (enrs_and_content env texts all_nodes content m) t i
  enrs_and_content-Has all_nodes [] m t i h = h
  enrs_and_content-Has all_nodes (c ∷ content) m t i h =
      enrs_and_content-Has all_nodes content _ t i (
        push_to_all-Has (texts.raw_key c.0, c.1) (calculate_interested_enrs env c.0 all_nodes) m t i
          h)

  enrs_and_content_new :
      (all_nodes : List (Node NodeId Enr)) (content : List (ContentKey × List ℕ))
      (m : List (List ℕ × List Item)) (enr : Enr) (c : ContentKey × List ℕ)
      → In c content
      → In enr (calculate_interested_enrs env c.0 all_nodes)
      → Has
          (enrs_and_content env texts all_nodes content m)
          (texts.to_base64 enr)
          (texts.raw_key c.0, c.1)
  enrs_and_content_new all_nodes [] m enr c k r = elim k [ ]
  enrs_and_content_new all_nodes (_ ∷ content) m enr c (here _) r =
      enrs_and_content-Has all_nodes content _ (texts.to_base64 enr) (texts.raw_key c.0, c.1)
        (push_to_all_new (texts.raw_key c.0, c.1) enr (calculate_interested_enrs env c.0 all_nodes)
          m r)
  enrs_and_content_new all_nodes (q ∷ content) m enr c (there _ _ k) r =
      enrs_and_content_new all_nodes content _ enr c k r

  Has-enrs_and_content :
      (all_nodes : List (Node NodeId Enr)) (content : List (ContentKey × List ℕ))
      (m : List (List ℕ × List Item)) (t : List ℕ) (i : Item)
      → Has (enrs_and_content env texts all_nodes content m) t i
      → Has m t i ⊎ ((enr : Enr) × (texts.to_base64 enr ≡ t) × IsRecipient all_nodes content enr i)
  Has-enrs_and_content all_nodes [] m t i h = inl h
  Has-enrs_and_content all_nodes (c ∷ content) m t i h =
      elim (Has-enrs_and_content all_nodes content _ t i h) [
        | inl old ↦
            elim (Has-push_to_all (texts.raw_key c.0, c.1)
              (calculate_interested_enrs env c.0 all_nodes) m t i old) [
                | inl older ↦ inl older
                | inr (enr, r, same, new) ↦ inr (enr, same, (c, here content, r, new))
              ]
        | inr (enr, same, (d, k, r, new)) ↦ inr (enr, same, (d, there c content k, r, new))
      ]

  offer_requests-Has :
      (m : List (List ℕ × List Item)) (enr : Enr) (i : Item)
      → ((e : Enr) → texts.from_str (texts.to_base64 e) ≡ some e)
      → Has m (texts.to_base64 enr) i
      → Has (offer_requests env texts m) enr i
  offer_requests-Has [] enr i law h = absurd h
  offer_requests-Has ((t, items) ∷ m) enr i law (inl (same, k)) =
      rw (ap texts.from_str same ∙ law enr) (inl (refl, k))
  offer_requests-Has ((t, items) ∷ m) enr i law (inr h) =
      later (texts.from_str t) (offer_requests-Has m enr i law h)
    where
      later :
          (o : Option Enr)
          → Has (offer_requests env texts m) enr i
          → Has (request_to env texts o items (offer_requests env texts m)) enr i
      later none g = g
      later (some e) g = inr g

  Has-offer_requests :
      (m : List (List ℕ × List Item)) (enr : Enr) (i : Item)
      → Has (offer_requests env texts m) enr i
      → (t : List ℕ) × (texts.from_str t ≡ some enr) × Has m t i
  Has-offer_requests [] enr i h = absurd h
  Has-offer_requests ((t, items) ∷ m) enr i h =
      split (texts.from_str t) refl (λ g. Has-offer_requests m enr i g) h
    where
      split :
          (o : Option Enr)
          → texts.from_str t ≡ o
          → (Has (offer_requests env texts m) enr i
              → (t' : List ℕ) × (texts.from_str t' ≡ some enr) × Has m t' i)
          → Has (request_to env texts o items (offer_requests env texts m)) enr i
          → (t' : List ℕ) × (texts.from_str t' ≡ some enr) × Has ((t, items) ∷ m) t' i
      split none e again g = let (t', read, k) = again g in (t', read, inr k)
      split (some f) e again (inl (same, k)) = (t, (e ∙ ap some same), inl (refl, k))
      split (some f) e again (inr g) = let (t', read, k) = again g in (t', read, inr k)

  nobody :
      (content_key : ContentKey) (enr : Enr)
      → In enr (calculate_interested_enrs env content_key [])
      → ⊥
  unfolding calculate_interested_enrs interested_enrs
  nobody content_key enr k = elim k [ ]

  propagate_to_iff :
      (all_nodes : List (Node NodeId Enr)) (content : List (ContentKey × List ℕ)) (enr : Enr)
      (i : Item)
      → ((e : Enr) → texts.from_str (texts.to_base64 e) ≡ some e)
      → Has (propagate_to env texts all_nodes content).1 enr i ↔ IsRecipient all_nodes content enr i
  propagate_to_iff [] content enr i law =
      ((λ h. absurd h), (λ (c, k, r, e). absurd (nobody c.0 enr r)))
  propagate_to_iff (n ∷ all_nodes) content enr i law = (sound, complete)
    where
      sound :
          Has
            (offer_requests env texts (enrs_and_content env texts (n ∷ all_nodes) content []))
            enr
            i
          → IsRecipient (n ∷ all_nodes) content enr i
      sound h =
          let (t, read, k) = Has-offer_requests _ enr i h in
          elim (Has-enrs_and_content (n ∷ all_nodes) content [] t i k) [
            | inl nothing ↦ absurd nothing
            | inr (e, same, r) ↦
                let again : texts.from_str t ≡ some e = ap texts.from_str (sym same) ∙ law e in
                let equal : e ≡ enr = cc (read, again) in
                subst (λ f. IsRecipient (n ∷ all_nodes) content f i) equal r
          ]

      complete :
          IsRecipient (n ∷ all_nodes) content enr i
          → Has
              (offer_requests env texts (enrs_and_content env texts (n ∷ all_nodes) content []))
              enr
              i
      complete (c, k, r, e) =
          offer_requests-Has _ enr i law
            (rw e (enrs_and_content_new (n ∷ all_nodes) content [] enr c k r))

  -- Where the text of an ENR is read back as the ENR: an ENR is offered an item just if the item is one
  -- of the contents, with the bytes of its key, and the ENR is one of the recipients of that content
  -- among the connected nodes.
  pub propagate_gossip_cross_thread_lem :
      (entries : List (Bool × Node NodeId Enr)) (content : List (ContentKey × List ℕ)) (enr : Enr)
      (i : Item)
      → ((e : Enr) → texts.from_str (texts.to_base64 e) ≡ some e)
      → Has (propagate_gossip_cross_thread env texts entries content).1 enr i
        ↔ IsRecipient (connected_nodes entries) content enr i
  unfolding propagate_gossip_cross_thread
  propagate_gossip_cross_thread_lem entries content enr i law =
      propagate_to_iff (connected_nodes entries) content enr i law
