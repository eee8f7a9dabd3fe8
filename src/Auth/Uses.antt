-- ===== src/Auth/Uses.antt =====
-- How often one token can be exchanged for a session, by any number of requests.
use shikomi.Prelude.{
  ℕ, ◌≡◌, ◌≤◌, ◌+◌, ◌*◌, refl, Bool, true, false, Option, none, some, is_some, arith, inl, inr,
  Bool-cases, ◌&&◌, Option-cases, ◌==◌, leb, ==_iff, if◌then◌else◌,
}
use shikomi.Services.{Table, revise, matched, unless}
use shikomi.Auth.{
  RefreshToken, Request, Result, issued, refused, lookup, revoke_all, end_rotation_grace, is_live,
  consumed, revoked, without_grace, issue_refresh_token, issue_successor, when_spent,
  rotate_revoked, when_refreshed, rotate_active, when_row, when_claimed, when_found,
  revoke_refresh_token, revoke_row, reuse, in_grace, prune_tokens, is_at,
}

-- The exchanges that a row has left: the rotation, then one in the grace after it.
abbrev pub uses : Option RefreshToken → ℕ
uses none = 0
uses (some r) = (if is_some r.revoked_at then 0 else 2) + (if is_some r.rotated_at then 1 else 0)

abbrev pub win : Result → ℕ
win (issued u r p) = 1
win (refused e) = 0

abbrev Keeps : (RefreshToken → Bool) → (RefreshToken → RefreshToken) → ℕ → Type 0
Keeps p f n = (r : RefreshToken) → p r ≡ true → uses (some (f r)) + n ≤ uses (some r)

uses-revise :
    (p : RefreshToken → Bool) (f : RefreshToken → RefreshToken) (n : ℕ) (o : Option RefreshToken)
    → Keeps p f n
    → uses (revise p f o) + n * matched p o ≤ uses o
uses-revise p f n none k = omega arith
uses-revise p f n (some r) k = elim (Bool-cases (p r)) [
  | inl t ↦ let le = k r t in rw t (omega arith)
  | inr g ↦ rw g (omega arith)
]

claim-Keeps : (t : ℕ) → Keeps is_live (consumed t) 1
claim-Keeps t r h = ground arith

is_at_some : (v o : Option ℕ) → is_at v o ≡ true → is_some v ≡ true
is_at_some none o h = h
is_at_some (some v) o h = refl

spend-Keeps : (o : Option ℕ) → Keeps (λ r. is_at r.rotated_at o) without_grace 1
spend-Keeps o r h = ground (arith, is_at_some r.rotated_at o h)

end-Keeps : (u : ℕ) → Keeps (λ r. r.user_id == u && is_some r.rotated_at) without_grace 0
end-Keeps u r h = ground arith

revoke-Keeps : (u t : ℕ) → Keeps (λ r. r.user_id == u && is_live r) (revoked t) 0
revoke-Keeps u t r h = ground arith

logout-Keeps : (t : ℕ) → Keeps (λ r. true) (revoked t) 0
logout-Keeps t r h = ground arith

module _ (t : Table RefreshToken) (users : ℕ → Bool) (hash : ℕ → ℕ) (ttl : ℕ) where
  -- The exchanges that are left for the row of `id`.
  abbrev pub left : ℕ → Table.State t → ℕ
  left id s = uses (Table.find t s id)

  left-update :
      (k id n : ℕ) (p : RefreshToken → Bool) (f : RefreshToken → RefreshToken) (s : Table.State t)
      → Keeps p f n
      → left id (Table.update t k p f s).1 + (if k == id then n * (Table.update t k p f s).0 else 0)
        ≤ left id s
  left-update k id n p f s h =
      rw (Table.find-update t, Table.count-update t)
        (elim (Bool-cases (k == id)) [
          | inl e ↦ rw e (rw ((==_iff k id).0 e) (uses-revise p f n (Table.find t s id) h))
          | inr g ↦ rw g (omega arith)
        ])

  left-update_all :
      (id : ℕ) (p : RefreshToken → Bool) (f : RefreshToken → RefreshToken) (s : Table.State t)
      → Keeps p f 0
      → left id (Table.update_all t p f s) ≤ left id s
  left-update_all id p f s h =
      let le = uses-revise p f 0 (Table.find t s id) h in rw (Table.find-update_all t) (omega arith)

  left-end_rotation_grace :
      (u id : ℕ) (s : Table.State t) → left id (end_rotation_grace t users hash ttl u s) ≤ left id s
  unfolding end_rotation_grace
  left-end_rotation_grace u id s =
      left-update_all id (λ r. r.user_id == u && is_some r.rotated_at) without_grace s (end-Keeps u)

  left-revoke_all :
      (now u id : ℕ) (s : Table.State t) → left id (revoke_all t users hash ttl now u s) ≤ left id s
  unfolding revoke_all
  left-revoke_all now u id s =
      let one =
        left-update_all id (λ r. r.user_id == u && is_live r) (revoked now) s
          (revoke-Keeps u now) in
      let two =
        left-end_rotation_grace u id
          (Table.update_all t (λ r. r.user_id == u && is_live r) (revoked now) s) in
      omega arith

  -- Logout.
  pub left-revoke_refresh_token :
      (now raw id : ℕ) (s : Table.State t)
      → left id (revoke_refresh_token t users hash ttl now raw s) ≤ left id s
  unfolding revoke_refresh_token
  left-revoke_refresh_token now raw id s = elim (Option-cases (lookup t users hash ttl raw s)) [
    | inl e ↦ rw e (omega arith)
    | inr (k, e) ↦ rw e (row k (Table.find t s k))
  ]
    where
      row :
          (k : ℕ) (o : Option RefreshToken)
          → left id (revoke_row t users hash ttl now k o s) ≤ left id s
      row k none = omega arith
      row k (some r) =
          let one = left-update k id 0 (λ v. true) (revoked now) s (logout-Keeps now) in
          let two =
            left-end_rotation_grace r.user_id id (Table.update t k (λ v. true) (revoked now) s).1 in
          elim (Bool-cases (is_some r.revoked_at)) [
            | inl e ↦ simp e (omega arith)
            | inr g ↦ simp g (ground arith)
          ]

  pub left-prune_tokens :
      (now id : ℕ) (s : Table.State t) → left id (prune_tokens t users hash ttl now s) ≤ left id s
  unfolding prune_tokens
  left-prune_tokens now id s = rw (Table.find-delete_all t) (kept _ (Table.find t s id))
    where
      kept : (p : RefreshToken → Bool) (o : Option RefreshToken) → uses (unless p o) ≤ uses o
      kept p none = omega arith
      kept p (some r) = ground arith

  -- A result of a request for the token `k`, charged to the token `id`.
  abbrev pub Charges : ℕ → ℕ → ℕ → Result × Table.State t → Type 0
  Charges id k budget x = left id x.1 + (if k == id then win x.0 else 0) ≤ budget

  -- Nothing happens between the statements that the event runs, and the id is fresh.
  pub record Calm (q : Request (Table.State t)) (id : ℕ) : Type 0 where
    pub meanwhile_id : (s : Table.State t) → q.meanwhile s ≡ s
    pub between_id : (s : Table.State t) → q.between s ≡ s
    pub new_id : (q.new_id == id) ≡ false

  module _ (q : Request (Table.State t)) (id k : ℕ) (c : Calm q id) where
    issue_successor-Charges :
        (row : RefreshToken) (budget : ℕ) (s : Table.State t)
        → left id s + (if k == id then 1 else 0) ≤ budget
        → Charges id k budget (issue_successor t users hash ttl q row s)
    unfolding issue_successor issue_refresh_token
    issue_successor-Charges row budget s h = elim (Bool-cases (users row.user_id)) [
      | inl e ↦ simp e (rw (Table.find-insert t, c.new_id) (ground arith))
      | inr g ↦ simp g (ground arith)
    ]

    reuse-Charges :
        (row : RefreshToken) (budget : ℕ) (s : Table.State t)
        → left id s ≤ budget
        → Charges id k budget (reuse t users hash ttl q row s)
    reuse-Charges row budget s h = let le = left-revoke_all q.now row.user_id id s in ground arith

    pub rotate_revoked-Charges :
        (row : RefreshToken) (budget : ℕ) (s : Table.State t)
        → left id s ≤ budget
        → Charges id k budget (rotate_revoked t users hash ttl q k row s)
    unfolding rotate_revoked
    rotate_revoked-Charges row budget s h = elim (Bool-cases (in_grace q.now row)) [
      | inl e ↦
          let up =
            left-update k id 1 (λ r. is_at r.rotated_at row.rotated_at) without_grace s
              (spend-Keeps row.rotated_at) in
          simp (e, c.between_id s)
            (spent (Table.update t k (λ r. is_at r.rotated_at row.rotated_at) without_grace s)
              (omega (arith, up, h)))
      | inr g ↦ simp g (reuse-Charges row budget s h)
    ]
      where
        spent :
            (x : ℕ × Table.State t)
            → left id x.1 + (if k == id then 1 * x.0 else 0) ≤ budget
            → Charges id k budget (when_spent t users hash ttl q row x)
        spent (n, v) le = elim (Bool-cases (n == 1)) [
          | inl e ↦ simp e (issue_successor-Charges row budget v (ground arith))
          | inr g ↦ simp g (reuse-Charges row budget v (ground arith))
        ]

    pub rotate_active-Charges :
        (row : RefreshToken) (budget : ℕ) (s : Table.State t)
        → left id s ≤ budget
        → Charges id k budget (rotate_active t users hash ttl q k row s)
    unfolding rotate_active
    rotate_active-Charges row budget s h = elim (Bool-cases (leb row.expires_at q.now)) [
      | inl e ↦ simp e (ground arith)
      | inr g ↦
          let up = left-update k id 1 is_live (consumed q.now) s (claim-Keeps q.now) in
          simp (g, c.meanwhile_id s)
            (claimed (Table.update t k is_live (consumed q.now) s) (omega (arith, up, h)))
    ]
      where
        refreshed :
            (o : Option RefreshToken) (v : Table.State t)
            → left id v ≤ budget
            → Charges id k budget (when_refreshed t users hash ttl q k o v)
        refreshed none v le = ground arith
        refreshed (some r) v le = rotate_revoked-Charges r budget v le

        claimed :
            (x : ℕ × Table.State t)
            → left id x.1 + (if k == id then 1 * x.0 else 0) ≤ budget
            → Charges id k budget (when_claimed t users hash ttl q k row x)
        claimed (n, v) le = elim (Bool-cases (n == 1)) [
          | inl e ↦ simp e (issue_successor-Charges row budget v (ground arith))
          | inr g ↦ simp g (refreshed (Table.find t v k) v (ground arith))
        ]

    pub found-Charges :
        (s : Table.State t) → Charges id k (left id s) (when_found t users hash ttl q (some k) s)
    found-Charges s = at (Table.find t s k)
      where
        at :
            (o : Option RefreshToken) → Charges id k (left id s) (when_row t users hash ttl q k o s)
        at none = ground arith
        at (some r) = elim (Bool-cases (is_some r.revoked_at)) [
          | inl e ↦ simp e (rotate_revoked-Charges r (left id s) s (omega arith))
          | inr g ↦ simp g (rotate_active-Charges r (left id s) s (omega arith))
        ]
