-- ===== src/Service/AllowList/Approval.antt =====
-- examples/node/allowlist.go: which children the list lets in, after any edits.
use multi_region.Prelude.{
  ◌≡◌, refl, sym, ◌∙◌, ap, ◌≢◌, ◌↔◌, Bool, true, false, ◌||◌, Option, none, some, List, [], ◌∷◌,
  Bytes, beq, beq_iff, if◌then◌else◌, lookup, lookup-insert, lookup-delete, arith,
}
use multi_region.Server.{Context, AuthInfo, other_info, tls_info}
use multi_region.Service.AllowList.{
  ChildAllowList, add, add_all, remove, new_child_allow_list, contains, authorize, authorize_hook,
  reason, check_names, check_info, check_peer, check_known, Refusal, no_peer_info,
}

-- The edits of the admin interface.
pub data Edit : Type 0 where
  approves : Bytes → Edit
  revokes : Bytes → Edit

unfoldable pub edit : Edit → ChildAllowList → ChildAllowList
edit (approves id) l = add id l
edit (revokes id) l = remove id l

unfoldable pub edit_all : List Edit → ChildAllowList → ChildAllowList
edit_all [] l = l
edit_all (e ∷ es) l = edit_all es (edit e l)

-- A node-id stands in a list.
unfoldable pub is_in : Bytes → List Bytes → Bool
is_in id [] = false
is_in id (j ∷ ids) = beq j id || is_in id ids

-- What the last edit of a node-id says of it, if there is one.
unfoldable pub after_edits : Bool → Bytes → List Edit → Bool
after_edits b id [] = b
after_edits b id (approves j ∷ es) = after_edits (if beq j id then true else b) id es
after_edits b id (revokes j ∷ es) = after_edits (if beq j id then false else b) id es

pub contains-add :
    (id j : Bytes) (l : ChildAllowList)
    → contains (add id l) j ≡ (if beq id j then true else contains l j)
unfolding contains add
contains-add id j l = ground (arith, lookup-insert id j true l.allowed)

pub contains-remove :
    (id j : Bytes) (l : ChildAllowList)
    → contains (remove id l) j ≡ (if beq id j then false else contains l j)
unfolding contains remove
contains-remove id j l = ground (arith, lookup-delete id j l.allowed)

contains-add_all :
    (ids : List Bytes) (j : Bytes) (l : ChildAllowList)
    → contains (add_all ids l) j ≡ (is_in j ids || contains l j)
unfolding add_all is_in
contains-add_all [] j l = refl
contains-add_all (id ∷ ids) j l =
    ground (arith, contains-add_all ids j (add id l), contains-add id j l)

contains-edit_all :
    (es : List Edit) (j : Bytes) (l : ChildAllowList)
    → contains (edit_all es l) j ≡ after_edits (contains l j) j es
unfolding edit_all edit after_edits
contains-edit_all [] j l = refl
contains-edit_all (approves id ∷ es) j l =
    contains-edit_all es j (add id l) ∙ ap (λ b. after_edits b j es) (contains-add id j l)
contains-edit_all (revokes id ∷ es) j l =
    contains-edit_all es j (remove id l) ∙ ap (λ b. after_edits b j es) (contains-remove id j l)

contains-new : (ids : List Bytes) (j : Bytes) → contains (new_child_allow_list ids) j ≡ is_in j ids
unfolding new_child_allow_list contains lookup
contains-new ids j = ground (arith, contains-add_all ids j (record { allowed = [] }))

-- The peer presented certificates, the first of them with this CommonName.
unfoldable pub HasCertificate : Context → Bytes → Type 0
HasCertificate ctx id = (rest : List Bytes) × (ctx.peer ≡ some (tls_info (id ∷ rest)))

check_peer_iff : (ctx : Context) (id : Bytes) → (check_peer id ctx ≡ none) ↔ HasCertificate ctx id
unfolding check_peer check_info check_names HasCertificate
check_peer_iff ctx id = go ctx.peer
  where
    names :
        (cns : List Bytes) → (check_names id cns ≡ none) ↔ ((rest : List Bytes) × (cns ≡ id ∷ rest))
    names [] = (λ p. cc, λ (rest, e). cc)
    names (cn ∷ cns) = (
      (λ p. (cns, ap (λ x. x ∷ cns) ((beq_iff cn id).0 (ground (arith, p))))),
      λ (rest, e). let same : cn ≡ id = cc in ground (arith, beq_iff cn id, same),
    )

    infos :
        (i : AuthInfo)
        → (check_info id i ≡ none) ↔ ((rest : List Bytes) × (i ≡ tls_info (id ∷ rest)))
    infos other_info = (λ p. cc, λ (rest, e). cc)
    infos (tls_info cns) = (
      (λ p. let (rest, e) = (names cns).0 p in (rest, ap tls_info e)),
      λ (rest, e). (names cns).1 (rest, cc),
    )

    go :
        (p : Option AuthInfo)
        → (elim p [ none ↦ some no_peer_info | some info ↦ check_info id info ] ≡ none)
          ↔ ((rest : List Bytes) × (p ≡ some (tls_info (id ∷ rest))))
    go none = (λ p. cc, λ (rest, e). cc)
    go (some i) = (
      (λ p. let (rest, e) = (infos i).0 p in (rest, ap some e)),
      λ (rest, e). (infos i).1 (rest, cc),
    )

pub authorize_iff :
    (l : ChildAllowList) (ctx : Context) (id : Bytes)
    → (authorize l ctx id ≡ none) ↔ ((id ≢ []) × (contains l id ≡ true) × HasCertificate ctx id)
unfolding authorize check_known
authorize_iff l ctx [] = (λ p. cc, λ p. absurd (p.0 refl))
authorize_iff l ctx (b ∷ bs) = ground (arith, check_peer_iff ctx (b ∷ bs))

-- The hook gives no reason just if the list lets the child in.
pub authorize_hook-none :
    (quote : Bytes → Bytes) (l : ChildAllowList) (ctx : Context) (id : Bytes)
    → (authorize_hook quote l ctx id ≡ none) ↔ (authorize l ctx id ≡ none)
unfolding authorize_hook
authorize_hook-none quote l ctx id = go (authorize l ctx id)
  where
    go :
        (o : Option Refusal)
        → (elim o [ none ↦ none | some r ↦ some (reason quote r) ] ≡ none) ↔ (o ≡ none)
    go none = (λ p. refl, λ p. refl)
    go (some r) = (λ p. cc, λ p. cc)

-- After the initial list and any edits, a child is let in exactly if its node-id is not empty, the
-- last edit of this node-id approves it (or, without an edit, the initial list has it), and the
-- first certificate of its TLS connection carries the node-id as its CommonName.
pub edits_decide :
    (initial : List Bytes) (edits : List Edit) (ctx : Context) (id : Bytes)
    → (authorize (edit_all edits (new_child_allow_list initial)) ctx id ≡ none)
      ↔ ((id ≢ []) × (after_edits (is_in id initial) id edits ≡ true) × HasCertificate ctx id)
edits_decide initial edits ctx id =
    let l = edit_all edits (new_child_allow_list initial) in
    let known : contains l id ≡ after_edits (is_in id initial) id edits =
      contains-edit_all edits id (new_child_allow_list initial)
      ∙ ap (λ b. after_edits b id edits) (contains-new initial id) in
    let (to, back) = authorize_iff l ctx id in
    ((λ p. let (a, b, c) = to p in (a, sym known ∙ b, c)), λ p. back (p.0, known ∙ p.1, p.2))
