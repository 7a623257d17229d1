-- ===== src/Ads/Balance.antt =====
-- What paid views cost (server/controllers/ptpController.js).
use support_block_miner.Ads.Views.{
  PtpAd, Ads, cost_of_views, count_view, AdsDb, new_ad, IsAdsDb, create_ad, pay_view, track_view,
  add_usdc, place_ad, track_ad, is_full, is_view_of, fits_int,
}
use support_block_miner.Database.{User}
use support_block_miner.Base.Table.{
  HasUnique, sum_by, sum_by-update_found, find-by-key, sum_by-create,
}
use support_block_miner.Base.{
  refl, ◌≡◌, arith, none, some, false, inl, inr, suc, ◌==◌, ◌*◌, ℕ, not, String, ap, List, Option,
  Option-cases, Bool-cases, true, ◌≤◌, if◌then◌else◌,
}
use support_block_miner.Base.Int.{
  pos, ◌+ℤ◌, ◌-ℤ◌, ℤ, scale, negsuc, ◌≤ℤ◌, int_laws, pos_part, neg_part, ltb_ℤ, neg,
}
use support_block_miner.Base.Http.{accepted}
use mathlib.Core.List.{Memᴰ}

-- What the views that an advertisement still lacks will pay.
abbrev pub unseen : PtpAd → ℤ
unseen ad = cost_of_views ad.target_views -ℤ cost_of_views ad.views

-- The USDC of all users.
abbrev pub usdc_of : Ads → ℤ
usdc_of a = sum_by (λ r. r.usdc_balance) a.users

-- The USDC of the user `j`, and what the views that its advertisements lack will pay.
abbrev pub usdc_part : ℕ → User → ℤ
usdc_part j r = if r.id == j then r.usdc_balance else pos 0

abbrev pub unseen_part : ℕ → PtpAd → ℤ
unseen_part j ad = if ad.user_id == j then unseen ad else pos 0

abbrev pub promised : ℕ → Ads → ℤ
promised j a = sum_by (usdc_part j) a.users +ℤ sum_by (unseen_part j) a.ads

abbrev pub HasAdKeys : Ads → Type 0
HasAdKeys a = HasUnique (λ (r : User). r.id) a.users × HasUnique (λ (x : PtpAd). x.id) a.ads

cost_of_views-next : (v : ℤ) → cost_of_views (v +ℤ pos 1) ≡ cost_of_views v +ℤ pos 10_000
unfolding cost_of_views scale ◌+ℤ◌
cost_of_views-next v = ground arith

cost_of_views-zero : cost_of_views (pos 0) ≡ pos 0
unfolding cost_of_views
cost_of_views-zero = refl

unseen-count_view : (ad : PtpAd) → unseen (count_view ad) +ℤ pos 10_000 ≡ unseen ad
unfolding count_view
unseen-count_view ad =
    let next = cost_of_views-next ad.views in omega (int_laws, ap pos_part next, ap neg_part next)

unseen-new_ad :
    (id u : ℕ) (title url hash : String) (target : ℤ)
    → unseen (new_ad id u title url hash target) ≡ cost_of_views target
unseen-new_ad id u title url hash target = rw cost_of_views-zero (omega int_laws)

module _ (db : AdsDb) (laws : IsAdsDb db) where
  -- A change of the USDC of a user who is there.
  update-usdc_of :
      (u : ℕ) (amount : ℤ) (users : List User) {user : User}
      → HasUnique (λ (r : User). r.id) users
      → db.users.find (λ r. r.id == u) users ≡ some user
      → sum_by (λ r. r.usdc_balance) (db.users.update (λ r. r.id == u) (add_usdc amount) users)
        ≡ sum_by (λ r. r.usdc_balance) users +ℤ amount
  update-usdc_of u amount users ids there =
      let change =
        sum_by-update_found db.users laws.users (λ r. r.id) u (add_usdc amount) users
          (λ r. r.usdc_balance) ids there in
      omega (int_laws, ap pos_part change, ap neg_part change)

  -- … for one of the users.
  update-usdc_part :
      (j u : ℕ) (amount : ℤ) (users : List User) {user : User}
      → HasUnique (λ (r : User). r.id) users
      → db.users.find (λ r. r.id == u) users ≡ some user
      → sum_by (usdc_part j) (db.users.update (λ r. r.id == u) (add_usdc amount) users)
        ≡ sum_by (usdc_part j) users +ℤ (if u == j then amount else pos 0)
  update-usdc_part j u amount users {user} ids there =
      let change =
        sum_by-update_found db.users laws.users (λ r. r.id) u (add_usdc amount) users (usdc_part j)
          ids there in
      let key : user.id ≡ u = (let hit = (laws.users.find_some _ _ _ there).0 in ground arith) in
      elim (Bool-cases (u == j)) [
        | inl mine ↦
            let here : (user.id == j) ≡ true = ground arith in
            let change' = rw here at change in
            rw mine (omega (int_laws, ap pos_part change', ap neg_part change'))
        | inr other ↦
            let here : (user.id == j) ≡ false = ground arith in
            let change' = rw here at change in
            rw other (omega (int_laws, ap pos_part change', ap neg_part change'))
      ]

  -- A new advertisement costs what its views will pay.
  pub create_ad-promised :
      (j id u : ℕ) (title url hash : String) (views : Option ℤ) (a : Ads)
      → HasAdKeys a
      → promised j (create_ad db id u title url hash views a).1 ≡ promised j a
  unfolding create_ad place_ad
  create_ad-promised j id u title url hash none a ids = refl
  create_ad-promised j id u title url hash (some target) a ids =
      elim (Option-cases (db.users.find (λ r. r.id == u) a.users)) [
        | inl nobody ↦ rw (nobody, create_ad) refl
        | inr (user, there) ↦ elim (Bool-cases (ltb_ℤ user.usdc_balance (cost_of_views target))) [
          | inl poor ↦ rw (there, poor, create_ad) refl
          | inr rich ↦ elim (Bool-cases (fits_int target)) [
            | inr wide ↦ rw (there, rich, wide, create_ad) refl
            | inl fits ↦
                let ad = new_ad id u title url hash target in
                let paid = update-usdc_part j u (neg (cost_of_views target)) a.users ids.0 there in
                let more = sum_by-create db.ads laws.ads (unseen_part j) ad a.ads in
                let whole = unseen-new_ad id u title url hash target in
                rw (there, rich, fits, create_ad, place_ad)
                  (elim (Bool-cases (u == j)) [
                    | inl mine ↦
                        let paid' = rw mine at paid in
                        let more' = rw mine at more in
                        omega (
                          int_laws,
                          ap pos_part paid',
                          ap neg_part paid',
                          ap pos_part more',
                          ap neg_part more',
                          ap pos_part whole,
                          ap neg_part whole,
                        )
                    | inr other ↦
                        let paid' = rw other at paid in
                        let more' = rw other at more in
                        omega (
                          int_laws,
                          ap pos_part paid',
                          ap neg_part paid',
                          ap pos_part more',
                          ap neg_part more',
                        )
                  ])
          ]
        ]
      ]

  pay_view-promised :
      (j : ℕ) (ad : PtpAd) (viewer : String) (a : Ads)
      → HasAdKeys a
      → Memᴰ ad a.ads
      → promised j (pay_view db ad viewer a).1 ≡ promised j a
  unfolding pay_view count_view
  pay_view-promised j ad viewer a ids member =
      elim (Option-cases (db.users.find (λ r. r.id == ad.user_id) a.users)) [
        | inl nobody ↦ rw (nobody, pay_view) refl
        | inr (user, there) ↦
            let found = find-by-key db.ads laws.ads (λ x. x.id) ad a.ads ids.1 member in
            let paid = update-usdc_part j ad.user_id (pos 10_000) a.users ids.0 there in
            let change =
              sum_by-update_found db.ads laws.ads (λ x. x.id) ad.id count_view a.ads (unseen_part j)
                ids.1 found in
            let less = unseen-count_view ad in
            rw (there, pay_view)
              (elim (Bool-cases (ad.user_id == j)) [
                | inl mine ↦
                    let paid' = rw mine at paid in
                    let change' = rw mine at change in
                    omega (
                      int_laws,
                      ap pos_part paid',
                      ap neg_part paid',
                      ap pos_part change',
                      ap neg_part change',
                      ap pos_part less,
                      ap neg_part less,
                    )
                | inr other ↦
                    let paid' = rw other at paid in
                    let change' = rw other at change in
                    omega (
                      int_laws,
                      ap pos_part paid',
                      ap neg_part paid',
                      ap pos_part change',
                      ap neg_part change',
                    )
              ])
      ]

  -- A view pays what the advertisement then no longer promises.
  pub track_view-promised :
      (j : ℕ) (ad_id : Option ℕ) (viewer : String) (a : Ads)
      → HasAdKeys a
      → promised j (track_view db ad_id viewer a).1 ≡ promised j a
  unfolding track_view track_ad
  track_view-promised j none viewer a ids = refl
  track_view-promised j (some ad_id) viewer a ids =
      elim (Option-cases (db.ads.find (λ x. x.id == ad_id) a.ads)) [
        | inl gone ↦ rw (gone, track_view) refl
        | inr (ad, here) ↦
            let (hit, member) = laws.ads.find_some _ _ _ here in
            elim (Bool-cases (not ad.is_active)) [
              | inl off ↦ rw (here, off, track_view, track_ad) refl
              | inr on ↦ elim (Bool-cases (is_full ad)) [
                | inl full ↦
                    let found = find-by-key db.ads laws.ads (λ x. x.id) ad a.ads ids.1 member in
                    let change =
                      sum_by-update_found db.ads laws.ads (λ x. x.id) ad.id
                        (λ x. record x { is_active = false }) a.ads (unseen_part j) ids.1 found in
                    rw (here, on, full, track_view, track_ad)
                      (omega (int_laws, ap pos_part change, ap neg_part change))
                | inr open_ad ↦
                    elim (Option-cases (db.views.find (is_view_of db ad.id viewer) a.views)) [
                      | inr (v, seen) ↦ rw (here, on, open_ad, seen, track_view, track_ad) refl
                      | inl new ↦
                          rw (here, on, open_ad, new, track_view, track_ad)
                            (pay_view-promised j ad viewer a ids member)
                    ]
              ]
            ]
      ]

  -- An advertisement for a negative number of views, from -1 to -2³¹, is accepted from every user whose
  -- balance is not negative, and adds its price to it. No two users share a key.
  pub create_ad-negative :
      (id u n : ℕ) (title url hash : String) (a : Ads) {user : User}
      → HasUnique (λ (r : User). r.id) a.users
      → db.users.find (λ r. r.id == u) a.users ≡ some user
      → pos 0 ≤ℤ user.usdc_balance
      → suc n ≤ 2_147_483_648
      → let made = create_ad db id u title url hash (some (negsuc n)) a in
        (made.0 ≡ accepted tt) × (usdc_of made.1 ≡ usdc_of a +ℤ pos (suc n * 10_000))
  unfolding create_ad place_ad cost_of_views scale
  create_ad-negative id u n title url hash a {user} ids there solvent small =
      let rich : ltb_ℤ user.usdc_balance (cost_of_views (negsuc n)) ≡ false = ground arith in
      let fits : fits_int (negsuc n) ≡ true = ground arith in
      let paid = update-usdc_of u (neg (cost_of_views (negsuc n))) a.users ids there in
      let price : cost_of_views (negsuc n) ≡ neg (pos (suc n * 10_000)) = grind int_laws in
      rw (there, rich, fits, create_ad, place_ad)
        (
          refl,
          omega
              (int_laws, ap pos_part paid, ap neg_part paid, ap pos_part price, ap neg_part price),
        )

module _ (db : AdsDb) where
  -- One request.
  pub data AdStep : Ads → Ads → Type 0 where
    creates_ad :
        (id u : ℕ) (title url hash : String) (views : Option ℤ) (a : Ads)
        → AdStep a (create_ad db id u title url hash views a).1
    tracks :
        (ad_id : Option ℕ) (viewer : String) (a : Ads) → AdStep a (track_view db ad_id viewer a).1

  -- A request for an advertisement or for a view keeps, for each user, the USDC of the user and the price
  -- of the views that the user's advertisements still lack, together, as they were: the price is counted
  -- below 0 where the number of views is. So a view is paid to the user of the advertisement, who has paid
  -- for it. No two users and no two advertisements share a key.
  pub AdStep-promised :
      (laws : IsAdsDb db) (j : ℕ) (a a' : Ads)
      → AdStep a a'
      → HasAdKeys a
      → promised j a' ≡ promised j a
  AdStep-promised laws j _ _ (creates_ad id u title url hash views a) ids =
      create_ad-promised db laws j id u title url hash views a ids
  AdStep-promised laws j _ _ (tracks ad_id viewer a) ids =
      track_view-promised db laws j ad_id viewer a ids
