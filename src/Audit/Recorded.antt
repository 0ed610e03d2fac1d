-- ===== src/Audit/Recorded.antt =====
-- What `AuditService.Record` of internal/service/audit.go appends to the audits.
use be_better.Prelude.{
  ℕ, suc, ◌*◌, ◌≡◌, refl, ap, sym, subst, ◌∙◌, Bool, true, false, List, [], ◌∷◌, ◌++◌, map, All,
  if◌then◌else◌, not, ◌||◌, ◌=ˢ◌, ltb, one_of, rune_count, trim_space,
}
use be_better.Model.{Uuid, is_nil, AuditDraft, Error, validation, Result, ok, err, ◌>>=ᴿ◌}
use be_better.Exec.{fail_if-then, lift-then, ◌>>=◌, pure}
use be_better.Store.{Db}
use be_better.Audit.{
  AuditService, check_actor, prepare_audit_entities, sanitize_audit_object, default_metadata,
  contains_note, prepare, prepare_all, append, append_all, record_audits,
}
use be_better.Audit.Clean.{Stored, sanitize_audit_object-Stored}

-- The three documents of an audit: each absent, filtered and within its limit, or the marker.
pub record Redacted (service : AuditService) (draft : AuditDraft) : Type 0 where
  pub before : Stored service (contains_note draft.entities) (32 * 1024) draft.before_data
  pub after : Stored service (contains_note draft.entities) (32 * 1024) draft.after_data
  pub metadata : Stored service false (8 * 1024) draft.metadata

guard-ok :
    {A : Type 0} (b : Bool) (e : Error) (r : Result A) {a : A}
    → (if b then err e else r) ≡ ok a
    → r ≡ ok a
guard-ok true e r h = absurd (cc h)
guard-ok false e r h = h

bind-ok :
    {A B : Type 0} (r : Result A) (f : A → Result B) {b : B}
    → (r >>=ᴿ f) ≡ ok b
    → (a : A) × (r ≡ ok a) × (f a ≡ ok b)
bind-ok (ok a) f h = (a, refl, h)
bind-ok (err e) f h = absurd (cc h)

ok_eq : {A : Type 0} {a b : A} → ok a ≡ ok b → a ≡ b
ok_eq h = cc h

prepare-Redacted :
    (service : AuditService) (user : Uuid) (index : ℕ) (draft : AuditDraft) {out : AuditDraft}
    → prepare service user index draft ≡ ok out
    → Redacted service out
unfolding prepare
prepare-Redacted service user index draft h =
    let action = trim_space draft.action in
    let actor_type = if draft.actor_type =ˢ "" then "user" else draft.actor_type in
    let named =
      guard-ok (ltb (rune_count action) 1 || ltb 120 (rune_count action)) validation _ h in
    let acted =
      guard-ok (not (one_of ("user" ∷ "agent" ∷ "system" ∷ []) actor_type)) validation _ named in
    let (actor, a, h1) = bind-ok (check_actor user actor_type draft.actor_id) _ acted in
    let (entities, e, h2) = bind-ok (prepare_audit_entities draft.entities) _ h1 in
    let note = contains_note entities in
    let (before, b, h3) =
      bind-ok (sanitize_audit_object service draft.before_data note (32 * 1024) true) _ h2 in
    let (after, f, h4) =
      bind-ok (sanitize_audit_object service draft.after_data note (32 * 1024) true) _ h3 in
    let metadata_in = default_metadata draft.metadata in
    let (metadata, m, h5) =
      bind-ok (sanitize_audit_object service metadata_in false (8 * 1024) false) _ h4 in
    subst (Redacted service) (ok_eq h5) (record {
      before =
          sanitize_audit_object-Stored service draft.before_data note (32 * 1024) true before b;
      after = sanitize_audit_object-Stored service draft.after_data note (32 * 1024) true after f;
      metadata = sanitize_audit_object-Stored service metadata_in false (8 * 1024) false metadata m;
    })

prepare_all-Redacted :
    (service : AuditService) (user : Uuid) (index : ℕ) (drafts : List AuditDraft)
    {out : List AuditDraft}
    → prepare_all service user index drafts ≡ ok out
    → All (Redacted service) out
unfolding prepare_all
prepare_all-Redacted service user index [] h = subst (All (Redacted service)) (ok_eq h) tt
prepare_all-Redacted service user index (draft ∷ drafts) h =
    let (prepared, p, h1) = bind-ok (prepare service user index draft) _ h in
    let (rest, r, h2) = bind-ok (prepare_all service user (suc index) drafts) _ h1 in
    subst (All (Redacted service)) (ok_eq h2) (
      prepare-Redacted service user index draft p,
      prepare_all-Redacted service user (suc index) drafts r,
    )

-- The audits of a user, as the table keeps them.
abbrev pub rows_of : Uuid → List AuditDraft → List (Uuid × AuditDraft)
rows_of user = map (λ draft. (user, draft))

append_nil : {A : Type 0} (xs : List A) → xs ++ [] ≡ xs
append_nil [] = refl
append_nil (x ∷ xs) = ap (λ l. x ∷ l) (append_nil xs)

append_cons : {A : Type 0} (xs : List A) (y : A) (zs : List A) → (xs ++ y ∷ []) ++ zs ≡ xs ++ y ∷ zs
append_cons [] y zs = refl
append_cons (x ∷ xs) y zs = ap (λ l. x ∷ l) (append_cons xs y zs)

append_all-rows :
    {R : Type 0} (user : Uuid) (drafts : List AuditDraft) (s : Db R)
    → append_all user drafts s ≡ (ok tt, record s { audits = s.audits ++ rows_of user drafts })
unfolding append_all append ◌>>=◌ pure
append_all-rows user [] s = ap (λ l. (ok tt, record s { audits = l })) (sym (append_nil s.audits))
append_all-rows user (d ∷ ds) s =
    append_all-rows user ds (record s { audits = s.audits ++ (user, d) ∷ [] })
    ∙ ap (λ l. (ok tt, record s { audits = l })) (append_cons s.audits (user, d) (rows_of user ds))

-- `Record`, where it succeeds, appends audits of the user and changes nothing else, and the three
-- documents of each are redacted: absent, an empty object, a document of at most 32 KiB, or 8 KiB
-- for the metadata, that has no key that the filter drops at any depth, or the marker that a longer
-- document was left out.
pub record_audits-Redacted :
    {R : Type 0} (service : AuditService) (user : Uuid) (drafts : List AuditDraft) (s : Db R)
    {t : Db R}
    → record_audits service user drafts s ≡ (ok tt, t)
    → (stored : List AuditDraft) × (t ≡ record s { audits = s.audits ++ rows_of user stored })
      × All (Redacted service) stored
unfolding record_audits
record_audits-Redacted service user drafts s h =
    let (stored, p, ran) =
      lift-then (prepare_all service user 0 drafts) (append_all user) s
        (fail_if-then (is_nil user) validation _ s h) in
    (
      stored,
      ap (λ q. q.1) (sym ran ∙ append_all-rows user stored s),
      prepare_all-Redacted service user 0 drafts p,
    )
