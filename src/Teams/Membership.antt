-- ===== src/Teams/Membership.antt =====
-- db/queries/challenge-teams of the API: the tables of teams and of memberships, whose key is the
-- pair of the challenge and the user.
use brand_blitz.Prelude.{
  ℕ, ◌+◌, ◌≤◌, ◌≡◌, refl, inl, inr, Bool, false, ◌&&◌, not, List, [], ◌∷◌, ◌++◌, Option, none, some,
  arith, length, keep, find, ◌==◌, if◌then◌else◌, Bool-cases,
}
use brand_blitz.Texts.{Text, trim}

pub record Team : Type 0 where
  pub id : ℕ
  pub challenge_id : ℕ
  pub name : Text
  pub created_by : ℕ

pub record Membership : Type 0 where
  pub team_id : ℕ
  pub challenge_id : ℕ
  pub user_id : ℕ

pub record Tables : Type 0 where
  pub teams : List Team
  pub members : List Membership
  pub next_id : ℕ

pub data TeamError : Type 0 where
  empty_name team_not_found : TeamError

-- What an operation throws or returns, with the tables that it leaves.
pub data Outcome {ℓ} (A : Type ℓ) : Type ℓ where
  threw : TeamError → Outcome A
  returned : A → Tables → Outcome A

abbrev pub is_member : ℕ → ℕ → Membership → Bool
is_member challenge user m = m.challenge_id == challenge && m.user_id == user

-- INSERT … ON CONFLICT (challenge_id, user_id) DO UPDATE SET team_id.
upsert : ℕ → ℕ → ℕ → List Membership → List Membership
upsert team challenge user [] =
    record { team_id = team; challenge_id = challenge; user_id = user } ∷ []
upsert team challenge user (m ∷ ms) =
    let rest = upsert team challenge user ms in
    if is_member challenge user m then record m { team_id = team } ∷ ms else m ∷ rest

unfoldable pub create_challenge_team : ℕ → Text → ℕ → Tables → Outcome Team
unfolding upsert trim
create_challenge_team challenge name user t =
    if length (trim name) == 0
    then threw empty_name
    else returned team (record t {
      teams = t.teams ++ (team ∷ []);
      members = upsert team.id challenge user t.members;
      next_id = t.next_id + 1;
    })
  where
    team : Team
    team = record { id = t.next_id; challenge_id = challenge; name = trim name; created_by = user }

unfoldable pub join_challenge_team : ℕ → ℕ → ℕ → Tables → Outcome Team
unfolding upsert
join_challenge_team challenge team user t =
    elim (find (λ r. r.id == team && r.challenge_id == challenge) t.teams) [
      | none ↦ threw team_not_found
      | some found ↦ returned found (record t { members = upsert team challenge user t.members })
    ]

-- DELETE, and whether a row was deleted.
pub leave_challenge_team : ℕ → ℕ → Tables → Bool × Tables
leave_challenge_team challenge user t = (
  not (length (keep (is_member challenge user) t.members) == 0),
  record t { members = keep (λ m. not (is_member challenge user m)) t.members },
)

-- The join of a team with a membership of the user, teams in table order.
team_of : ℕ → ℕ → List Membership → List Team → Option Team
team_of challenge user ms [] = none
team_of challenge user ms (r ∷ rs) =
    let later = team_of challenge user ms rs in
    if r.challenge_id == challenge
      && not (length (keep (λ m. m.team_id == r.id && m.user_id == user) ms) == 0)
    then some r
    else later

unfoldable pub get_user_challenge_team : ℕ → ℕ → Tables → Option Team
unfolding team_of
get_user_challenge_team challenge user t = team_of challenge user t.members t.teams

abbrev pub membership_count : ℕ → ℕ → List Membership → ℕ
membership_count challenge user ms = length (keep (is_member challenge user) ms)

-- The abstract table: the team of a user in a challenge, if any.
pub team_in : ℕ → ℕ → List Membership → Option ℕ
team_in challenge user [] = none
team_in challenge user (m ∷ ms) =
    let rest = team_in challenge user ms in
    if is_member challenge user m then some m.team_id else rest

-- A user has at most one membership in each challenge.
abbrev pub IsKeyed : List Membership → Type 0
IsKeyed ms = (challenge user : ℕ) → membership_count challenge user ms ≤ 1

abbrev pub same_key : ℕ → ℕ → ℕ → ℕ → Bool
same_key c u c' u' = c == c' && u == u'

team_in-upsert :
    (team c u : ℕ) (ms : List Membership) (c' u' : ℕ)
    → team_in c' u' (upsert team c u ms)
      ≡ (if same_key c u c' u' then some team else team_in c' u' ms)
unfolding team_in upsert
team_in-upsert team c u [] c' u' = ground arith
team_in-upsert team c u (m ∷ ms) c' u' = ground (arith, team_in-upsert team c u ms c' u')

membership_count-upsert_self :
    (team c u : ℕ) (ms : List Membership)
    → membership_count c u ms ≤ 1
    → membership_count c u (upsert team c u ms) ≤ 1
unfolding upsert
membership_count-upsert_self team c u [] h = ground arith
membership_count-upsert_self team c u (m ∷ ms) h = elim (Bool-cases (is_member c u m)) [
  | inl e ↦ ground arith
  | inr e ↦ ground (arith, membership_count-upsert_self team c u ms)
]

membership_count-upsert_other :
    (team c u : ℕ) (ms : List Membership) (c' u' : ℕ)
    → same_key c u c' u' ≡ false
    → membership_count c' u' (upsert team c u ms) ≡ membership_count c' u' ms
unfolding upsert
membership_count-upsert_other team c u [] c' u' h = ground arith
membership_count-upsert_other team c u (m ∷ ms) c' u' h = elim (Bool-cases (is_member c u m)) [
  | inl e ↦ rw e (ground arith)
  | inr e ↦ rw e (ground (arith, membership_count-upsert_other team c u ms c' u' h))
]

upsert-IsKeyed : (team c u : ℕ) (ms : List Membership) → IsKeyed ms → IsKeyed (upsert team c u ms)
upsert-IsKeyed team c u ms h c' u' = elim (Bool-cases (same_key c u c' u')) [
  | inl e ↦
      let sc : c ≡ c' = ground arith in
      let su : u ≡ u' = ground arith in
      rw (← sc, ← su) (membership_count-upsert_self team c u ms (h c u))
  | inr e ↦ rw (membership_count-upsert_other team c u ms c' u' e) (h c' u')
]

team_in-keep :
    (c u : ℕ) (ms : List Membership) (c' u' : ℕ)
    → team_in c' u' (keep (λ m. not (is_member c u m)) ms)
      ≡ (if same_key c u c' u' then none else team_in c' u' ms)
unfolding team_in
team_in-keep c u [] c' u' = ground arith
team_in-keep c u (m ∷ ms) c' u' = ground (arith, team_in-keep c u ms c' u')

membership_count-keep-le :
    (p : Membership → Bool) (ms : List Membership) (c u : ℕ)
    → membership_count c u (keep p ms) ≤ membership_count c u ms
membership_count-keep-le p [] c u = omega arith
membership_count-keep-le p (m ∷ ms) c u = ground (arith, membership_count-keep-le p ms c u)

-- When joining a team returns, the user is in that team of the challenge, every other membership is
-- as before, and a user who had at most one membership in each challenge still has.
join_challenge_team-refines :
    (c team u : ℕ) (t t' : Tables) (r : Team)
    → join_challenge_team c team u t ≡ returned r t'
    → ((c' u' : ℕ)
        → team_in c' u' t'.members
          ≡ (if same_key c u c' u' then some team else team_in c' u' t.members))
      × (IsKeyed t.members → IsKeyed t'.members)
unfolding join_challenge_team
join_challenge_team-refines c team u t t' r h =
    let same : t'.members ≡ upsert team c u t.members = ground arith in
    (
      λ c' u'. rw same (team_in-upsert team c u t.members c' u'),
      λ keyed. rw same (upsert-IsKeyed team c u t.members keyed),
    )

-- Creating a team with a name that is not blank puts its creator into the new team; other
-- memberships are as before, and stay at most one for each user and challenge.
pub create_challenge_team-refines :
    (c : ℕ) (name : Text) (u : ℕ) (t t' : Tables) (r : Team)
    → create_challenge_team c name u t ≡ returned r t'
    → ((c' u' : ℕ)
        → team_in c' u' t'.members
          ≡ (if same_key c u c' u' then some r.id else team_in c' u' t.members))
      × (IsKeyed t.members → IsKeyed t'.members)
unfolding create_challenge_team
create_challenge_team-refines c name u t t' r h =
    let same : t'.members ≡ upsert r.id c u t.members = ground arith in
    (
      λ c' u'. rw same (team_in-upsert r.id c u t.members c' u'),
      λ keyed. rw same (upsert-IsKeyed r.id c u t.members keyed),
    )

-- Leaving removes the user's membership in the challenge and no other, and reports whether there
-- was one.
pub leave_challenge_team-refines :
    (c u : ℕ) (t : Tables) (c' u' : ℕ)
    → (team_in c' u' (leave_challenge_team c u t).1.members
        ≡ (if same_key c u c' u' then none else team_in c' u' t.members))
      × (IsKeyed t.members → membership_count c' u' (leave_challenge_team c u t).1.members ≤ 1)
      × ((leave_challenge_team c u t).0 ≡ not (membership_count c u t.members == 0))
unfolding leave_challenge_team
leave_challenge_team-refines c u t c' u' = (
  team_in-keep c u t.members c' u',
  λ keyed.
      ground
        (arith, membership_count-keep-le (λ m. not (is_member c u m)) t.members c' u', keyed c' u'),
  refl,
)
