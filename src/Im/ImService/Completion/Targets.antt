-- ===== src/Im/ImService/Completion/Targets.antt =====
-- Whom a broadcast to a group is for.
use project_chat.Common.{
  ℕ, String, ◌≡◌, ◌∙◌, refl, Bool, false, not, ◌&&◌, ◌||◌, none, some, List, [], ◌∷◌, ◌++◌, map,
  arith, eqb, eqb_iff, nat_key, string_key, text_iff, Bool-cases, Option-cases, inl, inr,
  if◌then◌else◌, if-cases,
}
use project_chat.Common.Map.{Map, find, has}
use project_chat.Common.KeySet.{KeySet, contains, contains-nil}
use project_chat.Im.Group.{GroupRole, has_member}
use project_chat.Im.GroupManager
use project_chat.Im.GroupManager.{GroupManager, GroupMemberInfo, member_info, member_infos}
use project_chat.Im.SessionManager.{SessionManager, conn_keys_by_account_id, account_id_by_conn}
use project_chat.Im.SessionManager.Online.{IsConsistent, linked_iff, empty-IsConsistent}
use project_chat.Im.SessionManager.History.{Call, MayRun, start, run, run-IsConsistent_from}
use project_chat.Im.ImService.{add_target, collect_keys, collect_members, collect_group_targets}

contains-append :
    (j : ℕ) (s : KeySet ℕ) (k : ℕ) → contains j (s ++ (k ∷ [])) ≡ (contains j s || eqb k j)
unfolding contains
contains-append j [] k = ground arith
contains-append j (i ∷ s) k = ground (arith, contains-append j s k)

contains-add_target :
    (j : ℕ) (s : KeySet ℕ) (k : ℕ) → contains j (add_target s k) ≡ (contains j s || eqb k j)
unfolding add_target
contains-add_target j s k = elim (Bool-cases (contains k s)) [
  | inl old ↦ ground (arith, eqb_iff k j)
  | inr new ↦ rw new (contains-append j s k)
]

-- One key of an account, before the rest.
one_key :
    (j k excluded : ℕ) (seen : KeySet ℕ) (b : Bool)
    → (contains j (if eqb k excluded then seen else add_target seen k)
        || (not (eqb j excluded) && b))
      ≡ (contains j seen || (not (eqb j excluded) && (eqb k j || b)))
one_key j k excluded seen b = elim (Bool-cases (eqb k excluded)) [
  | inl own ↦ rw own (ground (arith, eqb_iff k excluded, eqb_iff k j, eqb_iff j excluded))
  | inr other ↦ rw other (
      ground
        (arith, contains-add_target j seen k, eqb_iff k excluded, eqb_iff k j, eqb_iff j excluded))
]

contains-collect_keys :
    (j excluded : ℕ) (keys : List ℕ) (seen : KeySet ℕ)
    → contains j (collect_keys excluded keys seen)
      ≡ (contains j seen || (not (eqb j excluded) && contains j keys))
unfolding collect_keys contains
contains-collect_keys j excluded [] seen = ground arith
contains-collect_keys j excluded (k ∷ keys) seen =
    contains-collect_keys j excluded keys (if eqb k excluded then seen else add_target seen k)
    ∙ one_key j k excluded seen (contains j keys)

-- The key belongs to one of the members.
linked_to : SessionManager → ℕ → List GroupMemberInfo → Bool
linked_to m j [] = false
linked_to m j (i ∷ infos) =
    contains j (conn_keys_by_account_id m i.account_id) || linked_to m j infos

contains-collect_members :
    (m : SessionManager) (j excluded : ℕ) (infos : List GroupMemberInfo) (seen : KeySet ℕ)
    → contains j (collect_members m excluded infos seen)
      ≡ (contains j seen || (not (eqb j excluded) && linked_to m j infos))
unfolding collect_members linked_to
contains-collect_members m j excluded [] seen = ground arith
contains-collect_members m j excluded (i ∷ infos) seen = ground (
  arith,
  contains-collect_members m j excluded infos
      (collect_keys excluded (conn_keys_by_account_id m i.account_id) seen),
  contains-collect_keys j excluded (conn_keys_by_account_id m i.account_id) seen,
)

-- The account of the connection is a member.
abbrev pub is_of_member : SessionManager → GroupManager → String → ℕ → Bool
is_of_member sessions groups group_id j = elim (account_id_by_conn sessions j) [
  | none ↦ false
  | some a ↦ GroupManager.is_member groups group_id a
]

module _ (sessions : SessionManager) (consistent : IsConsistent sessions) (j : ℕ) where
  linked_none :
      (ms : Map String GroupRole)
      → account_id_by_conn sessions j ≡ none
      → linked_to sessions j (map member_info ms) ≡ false
  unfolding linked_to member_info
  linked_none [] e = refl
  linked_none ((a, r) ∷ ms) e = ground (arith, linked_iff sessions a j consistent, linked_none ms e)

  linked_some :
      (ms : Map String GroupRole) (b : String)
      → account_id_by_conn sessions j ≡ some b
      → linked_to sessions j (map member_info ms) ≡ has b ms
  unfolding linked_to find member_info
  linked_some [] b e = refl
  linked_some ((a, r) ∷ ms) b e =
      ground (arith, linked_iff sessions a j consistent, text_iff a b, linked_some ms b e)

  linked_to-member_infos :
      (groups : GroupManager) (g : String)
      → linked_to sessions j (member_infos groups g) ≡ is_of_member sessions groups g j
  unfolding member_infos GroupManager.is_member has_member linked_to
  linked_to-member_infos groups g = elim (Option-cases (find g groups.groups_by_id)) [
    | inl missing ↦ ground arith
    | inr (h, e) ↦ elim (Option-cases (account_id_by_conn sessions j)) [
      | inl away ↦ ground (arith, linked_none h.members away)
      | inr (b, bound) ↦ ground (arith, linked_some h.members b bound)
    ]
  ]

-- No key stands twice in the list.
abbrev pub AllDistinct : List ℕ → Type 0
AllDistinct [] = Unit
AllDistinct (k ∷ ks) = (contains k ks ≡ false) × AllDistinct ks

AllDistinct-append :
    (s : KeySet ℕ) (k : ℕ) → AllDistinct s → contains k s ≡ false → AllDistinct (s ++ (k ∷ []))
unfolding contains
AllDistinct-append [] k d new = (refl, tt)
AllDistinct-append (i ∷ s) k d new = (
  ground (arith, contains-append i s k, eqb_iff i k, eqb_iff k i),
  AllDistinct-append s k d.1 (ground arith),
)

add_target-AllDistinct : (s : KeySet ℕ) (k : ℕ) → AllDistinct s → AllDistinct (add_target s k)
unfolding add_target
add_target-AllDistinct s k d =
    if-cases AllDistinct (contains k s) (λ _. d) (λ new. AllDistinct-append s k d new)

collect_keys-AllDistinct :
    (excluded : ℕ) (keys : List ℕ) (seen : KeySet ℕ)
    → AllDistinct seen
    → AllDistinct (collect_keys excluded keys seen)
unfolding collect_keys
collect_keys-AllDistinct excluded [] seen d = d
collect_keys-AllDistinct excluded (k ∷ keys) seen d =
    collect_keys-AllDistinct excluded keys (if eqb k excluded then seen else add_target seen k)
      (if-cases AllDistinct (eqb k excluded) (λ _. d) (λ _. add_target-AllDistinct seen k d))

collect_members-AllDistinct :
    (m : SessionManager) (excluded : ℕ) (infos : List GroupMemberInfo) (seen : KeySet ℕ)
    → AllDistinct seen
    → AllDistinct (collect_members m excluded infos seen)
unfolding collect_members
collect_members-AllDistinct m excluded [] seen d = d
collect_members-AllDistinct m excluded (i ∷ infos) seen d =
    collect_members-AllDistinct m excluded infos
      (collect_keys excluded (conn_keys_by_account_id m i.account_id) seen)
      (collect_keys-AllDistinct excluded (conn_keys_by_account_id m i.account_id) seen d)

-- After any history of the sessions in which only connections without an account are bound, a
-- broadcast to a group is for exactly the connections of its members, less the one that is left out,
-- and for none of them twice.
pub collect_group_targets_lem :
    (cs : List Call) (groups : GroupManager) (group_id : String) (excluded j : ℕ)
    → MayRun start cs
    → let sessions = run start cs in
      let targets = collect_group_targets sessions groups group_id excluded in
      (contains j targets ≡ (not (eqb j excluded) && is_of_member sessions groups group_id j))
      × AllDistinct targets
unfolding collect_group_targets
collect_group_targets_lem cs groups group_id excluded j may =
    let sessions : SessionManager = run start cs in
    let consistent = run-IsConsistent_from start cs may empty-IsConsistent in
    (
      contains-collect_members sessions j excluded (member_infos groups group_id) []
          ∙ rw (linked_to-member_infos sessions consistent j groups group_id, contains-nil j) refl,
      collect_members-AllDistinct sessions excluded (member_infos groups group_id) [] tt,
    )
