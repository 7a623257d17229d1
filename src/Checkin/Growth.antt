-- ===== src/Checkin/Growth.antt =====
-- What a free check-in does to the streak (`claimCheckin`, server/controllers/checkinController.js).
use support_block_miner.Checkin.State.{DailyCheckin, is_row_of, is_confirmed}
use support_block_miner.Checkin.Streak.{has_date, is_confirmed_of, compute_streak}
use support_block_miner.Checkin.Claims.{
  CheckinSettings, upsert_free, free_row, confirm_free, is_confirmed_row, claim_checkin,
  has_free_hash,
}
use support_block_miner.Checkin.Days.{IsRun, dates_of, IsStreak, compute_streak-IsStreak}
use support_block_miner.Base.{
  true, [], ◌∷◌, inl, inr, refl, zero, suc, ◌==◌, ◌≤◌, ◌-◌, ◌≡◌, ◌≢◌, ◌&&◌, ◌||◌, ◌++◌,
  if◌then◌else◌, arith, ℕ, List, Bool, ap, map, keep, Bool-cases, Option-cases, some, false, ◌+◌,
  sym, ◌∙◌, none,
}
use support_block_miner.Base.Table.{Table, IsTable}
use mathlib.Core.List.{Memᴰ}
use mathlib.Core.Path.{subst}

-- A run is as long in two lists that agree up to its last day.
run_unique :
    (ds es : List ℕ) (last n m : ℕ)
    → ((day : ℕ) → day ≤ last → has_date ds day ≡ has_date es day)
    → IsRun ds last n
    → IsRun es last m
    → n ≡ m
run_unique ds es last zero zero same p q = refl
run_unique ds es last zero (suc m) same p q =
    let e = same last (omega arith) in absurd (ground arith)
run_unique ds es last (suc n) zero same p q =
    let e = same last (omega arith) in absurd (ground arith)
run_unique ds es last (suc n) (suc m) same p q =
    ap suc (run_unique ds es (last - 1) n m (λ day le. same day (omega (arith, le))) p.1 q.1)

-- A new date today makes the streak one day longer.
one_more :
    (ds es : List ℕ) (yesterday n m : ℕ)
    → has_date ds (suc yesterday) ≡ false
    → has_date es (suc yesterday) ≡ true
    → ((day : ℕ) → day ≢ suc yesterday → has_date es day ≡ has_date ds day)
    → IsStreak ds (suc yesterday) n
    → IsStreak es (suc yesterday) m
    → m ≡ n + 1
one_more ds es yesterday n m out inside others (inl p) q = absurd (let e = p.0 in ground arith)
one_more ds es yesterday n m out inside others (inr p) (inr q) =
    absurd (let e = q.0 in ground arith)
one_more ds es yesterday n zero out inside others (inr p) (inl q) =
    absurd (let e = q.1 in ground arith)
one_more ds es yesterday n (suc m) out inside others (inr p) (inl q) =
    let e =
      run_unique ds es (suc yesterday - 1) n m (λ day le. sym (others day (omega (arith, le)))) p.1
        q.1.1 in
    omega (arith, e)

has_date-append :
    (p : DailyCheckin → Bool) (rows : List DailyCheckin) (r : DailyCheckin) (day : ℕ)
    → has_date (map (λ r. r.checkin_date) (keep p (rows ++ r ∷ []))) day
      ≡ (has_date (map (λ r. r.checkin_date) (keep p rows)) day || (p r && r.checkin_date == day))
has_date-append p [] r day = ground arith
has_date-append p (x ∷ rows) r day = ground (arith, has_date-append p rows r day)

module _ (s : CheckinSettings) (db : Table DailyCheckin) (laws : IsTable db) where
  -- The update of the row of the day leaves the other days.
  has_date-updated :
      (now u today day : ℕ) (rows : List DailyCheckin)
      → day ≢ today
      → has_date
          (dates_of u
            (map (λ r. if is_row_of u today r then confirm_free s db now today u r else r) rows))
          day
        ≡ has_date (dates_of u rows) day
  has_date-updated now u today day [] apart = refl
  has_date-updated now u today day (r ∷ rows) apart =
      let rest = has_date-updated now u today day rows apart in
      elim (Bool-cases (is_row_of u today r)) [
        | inr miss ↦ rw miss (ground (arith, rest))
        | inl hit ↦ rw hit (ground (arith, rest))
      ]

  -- … and makes the day a date.
  has_date-hit :
      (now u today : ℕ) (r : DailyCheckin) (rows : List DailyCheckin)
      → is_row_of u today r ≡ true
      → Memᴰ r rows
      → has_date
          (dates_of u
            (map (λ r. if is_row_of u today r then confirm_free s db now today u r else r) rows))
          today
        ≡ true
  has_date-hit now u today r [] hit m = elim m [ ]
  has_date-hit now u today r (x ∷ rows) hit (Memᴰ.head e) =
      let here : is_row_of u today x ≡ true = subst (λ y. is_row_of u today y ≡ true) e hit in
      rw here (ground arith)
  has_date-hit now u today r (x ∷ rows) hit (Memᴰ.tail m) =
      let rest = has_date-hit now u today r rows hit m in
      elim (Bool-cases (is_row_of u today x)) [
        | inr miss ↦ rw miss (ground (arith, rest))
        | inl here ↦ rw here (ground (arith, rest))
      ]

  upsert_free-dates :
      (id now today u : ℕ) (rows : List DailyCheckin)
      → (has_date (dates_of u (upsert_free s db id now today u rows)) today ≡ true)
        × ((day : ℕ)
            → day ≢ today
            → has_date (dates_of u (upsert_free s db id now today u rows)) day
              ≡ has_date (dates_of u rows) day)
  unfolding upsert_free
  upsert_free-dates id now today u rows = elim (Option-cases (db.find (is_row_of u today) rows)) [
    | inl new ↦
        rw (new, upsert_free, laws.create_rows (free_row s db id now today u) rows)
          (
            ground (
              arith,
              has_date-append (is_confirmed_of u) rows (free_row s db id now today u) today,
            ),
            (λ day apart. ground (
              arith,
              has_date-append (is_confirmed_of u) rows (free_row s db id now today u) day,
            )),
          )
    | inr (r, there) ↦
        let (hit, member) = laws.find_some _ _ _ there in
        rw
          (
            there,
            upsert_free,
            laws.update_rows (is_row_of u today) (confirm_free s db now today u) rows,
          )
          (
            has_date-hit now u today r rows hit member,
            (λ day apart. has_date-updated now u today day rows apart),
          )
  ]

  has_date-Memᴰ :
      (u : ℕ) (r : DailyCheckin) (rows : List DailyCheckin)
      → is_confirmed_of u r ≡ true
      → Memᴰ r rows
      → has_date (dates_of u rows) r.checkin_date ≡ true
  has_date-Memᴰ u r [] hit m = elim m [ ]
  has_date-Memᴰ u r (x ∷ rows) hit (Memᴰ.head e) =
      subst (λ y. has_date (dates_of u (x ∷ rows)) y.checkin_date ≡ true) (sym e)
        (let here : is_confirmed_of u x ≡ true = subst (λ y. is_confirmed_of u y ≡ true) e hit in
          rw here (ground arith))
  has_date-Memᴰ u r (x ∷ rows) hit (Memᴰ.tail m) =
      let rest = has_date-Memᴰ u r rows hit m in
      elim (Bool-cases (is_confirmed_of u x)) [
        | inr miss ↦ rw miss rest
        | inl here ↦ rw here (ground (arith, rest))
      ]

  -- A user who has not checked in today is not answered "already".
  not_yet :
      (u today : ℕ) (rows : List DailyCheckin)
      → has_date (dates_of u rows) today ≡ false
      → is_confirmed_row s db (db.find (is_row_of u today) rows) ≡ false
  not_yet u today rows missing = elim (Option-cases (db.find (is_row_of u today) rows)) [
    | inl new ↦ rw new refl
    | inr (r, there) ↦ elim (Bool-cases (is_confirmed r.status)) [
      | inr open_row ↦ rw (there, open_row) refl
      | inl done ↦
          let (hit, member) = laws.find_some _ _ _ there in
          let day : r.checkin_date ≡ today = ground arith in
          let inside = has_date-Memᴰ u r rows (ground arith) member in
          let inside' = subst (λ d. has_date (dates_of u rows) d ≡ true) day inside in
          absurd (ground arith)
    ]
  ]

  -- A free check-in makes the streak one day longer, for a user without a confirmed check-in today:
  -- neither the days before nor an open or failed payment of the day are in the way. No check-in is from
  -- before the first day of the count, and today is later; no other row has the hash of the free check-in,
  -- which would make the request fail.
  pub claim_checkin-streak :
      (fuel id now u yesterday : ℕ) (rows : List DailyCheckin)
      → suc (suc yesterday) ≤ fuel
      → has_date (dates_of u rows) 0 ≡ false
      → has_date (dates_of u rows) (suc yesterday) ≡ false
      → db.find (has_free_hash s db u (suc yesterday)) rows ≡ none
      → (n : ℕ) × (compute_streak db fuel u (suc yesterday) rows ≡ some n)
        × (compute_streak db fuel u
              (suc yesterday)
              (claim_checkin s db id now (suc yesterday) u rows).1
            ≡ some (n + 1))
  unfolding claim_checkin
  claim_checkin-streak fuel id now u yesterday rows enough zero_free missing free =
      let rows' = upsert_free s db id now (suc yesterday) u rows in
      let (here, others) = upsert_free-dates id now (suc yesterday) u rows in
      let (n, before, streak) =
        compute_streak-IsStreak db laws fuel u (suc yesterday) rows enough zero_free in
      let (m, after, streak') =
        compute_streak-IsStreak db laws fuel u (suc yesterday) rows' enough
          (others 0 (omega arith) ∙ zero_free) in
      rw (not_yet u (suc yesterday) rows missing, free, claim_checkin)
        (
          n,
          before,
          after
              ∙ ap some (
                  one_more (dates_of u rows) (dates_of u rows') yesterday n m missing here others
                    streak streak'),
        )
