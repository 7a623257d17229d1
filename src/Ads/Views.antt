-- ===== src/Ads/Views.antt =====
-- The handlers of server/controllers/ptpController.js, and the rows of `model PtpAd`, `model PtpView` and
-- `model PtpEarning` (server/prisma/schema.prisma). An amount in USD is an integer count of 10⁻⁸, in
-- which the source's 0.10 for 1000 views is 10 000 for one. A message of 500 stands for that of the error.
use support_block_miner.Database.{User}
use support_block_miner.Base.Table.{Table, IsTable}
use support_block_miner.Base.Http.{Response, accepted, rejected}
use text.Mathlib.Text.{◌==◌ as str_eq}
use support_block_miner.Base.{
  none, some, true, false, ◌&&◌, if◌then◌else◌, ℕ, not, String, List, Bool, ◌==◌, Option, ltb,
}
use support_block_miner.Base.Int.{pos, ◌+ℤ◌, ℤ, scale, leb_ℤ, neg, ltb_ℤ, negsuc}

pub record PtpAd : Type 0 where
  pub id : ℕ
  pub user_id : ℕ
  pub title : String
  pub url : String
  pub hash : String
  pub is_active : Bool
  pub views : ℤ
  pub target_views : ℤ
  pub paid_usd : ℤ
  pub cost_usd : ℤ

pub record PtpView : Type 0 where
  pub ad_id : ℕ
  pub viewer_hash : String

pub record PtpEarning : Type 0 where
  pub user_id : ℕ
  pub ad_id : ℕ
  pub amount_usd : ℤ

pub record Ads : Type 0 where
  pub users : List User
  pub ads : List PtpAd
  pub views : List PtpView
  pub earnings : List PtpEarning

pub record AdsDb : Type 0 where
  pub users : Table User
  pub ads : Table PtpAd
  pub views : Table PtpView
  pub earnings : Table PtpEarning

pub record IsAdsDb (db : AdsDb) : Type 0 where
  pub users : IsTable db.users
  pub ads : IsTable db.ads
  pub views : IsTable db.views
  pub earnings : IsTable db.earnings

abbrev pub ptp_earning_per_view_usd : ℕ
ptp_earning_per_view_usd = 10_000

-- `(targetViews / 1000) * PTP_RATE_USD_PER_1000`
unfoldable pub cost_of_views : ℤ → ℤ
unfolding scale
cost_of_views target = scale target ptp_earning_per_view_usd

abbrev pub add_usdc : ℤ → User → User
add_usdc amount r = record r { usdc_balance = r.usdc_balance +ℤ amount }

abbrev pub new_ad : ℕ → ℕ → String → String → String → ℤ → PtpAd
new_ad id u title url hash target = record {
  id = id;
  user_id = u;
  title = title;
  url = url;
  hash = hash;
  is_active = true;
  views = pos 0;
  target_views = target;
  paid_usd = cost_of_views target;
  cost_usd = cost_of_views target;
}

-- Whether a column of type Int, of 32 bits, can hold the number.
abbrev pub fits_int : ℤ → Bool
fits_int (pos n) = ltb n 2_147_483_648
fits_int (negsuc n) = ltb n 2_147_483_648

-- `ad.views >= ad.targetViews`
abbrev pub is_full : PtpAd → Bool
is_full ad = leb_ℤ ad.target_views ad.views

-- The next view.
unfoldable pub count_view : PtpAd → PtpAd
count_view ad =
    let views = ad.views +ℤ pos 1 in
    record ad { views = views; is_active = not (leb_ℤ ad.target_views views) }

module _ (db : AdsDb) where
  -- The `$transaction` of `createAd`, where the balance is large enough.
  unfoldable pub place_ad : PtpAd → Ads → Ads
  unfolding cost_of_views
  place_ad ad a = record a {
    users = db.users.update (λ r. r.id == ad.user_id) (add_usdc (neg ad.cost_usd)) a.users;
    ads = db.ads.create ad a.ads;
  }

  -- `createAd(req, res)`; the views are none where they are no integer. An error undoes the
  -- `$transaction`, also that of a number of views that the column cannot hold.
  unfoldable pub create_ad :
      ℕ → ℕ → String → String → String → Option ℤ → Ads → Response (Unit {0}) × Ads
  unfolding place_ad cost_of_views
  create_ad id u title url hash none a = (rejected 500 "Server error", a)
  create_ad id u title url hash (some target) a = elim (db.users.find (λ r. r.id == u) a.users) [
    | none ↦ (rejected 500 "Server error", a)
    | some user ↦
        if ltb_ℤ user.usdc_balance (cost_of_views target)
        then (rejected 500 "Insufficient balance", a)
        else if fits_int target
        then (accepted tt, place_ad (new_ad id u title url hash target) a)
        else (rejected 500 "Server error", a)
  ]

  abbrev pub is_view_of : ℕ → String → PtpView → Bool
  is_view_of ad_id viewer v = v.ad_id == ad_id && str_eq v.viewer_hash viewer

  -- A new view of an active advertisement; without its owner the `$transaction` throws.
  unfoldable pub pay_view : PtpAd → String → Ads → Response (Unit {0}) × Ads
  unfolding count_view
  pay_view ad viewer a = elim (db.users.find (λ r. r.id == ad.user_id) a.users) [
    | none ↦ (rejected 500 "Server error", a)
    | some _ ↦ (
      accepted tt,
      record {
        users =
            db.users.update (λ r. r.id == ad.user_id) (add_usdc (pos ptp_earning_per_view_usd))
              a.users;
        ads = db.ads.update (λ x. x.id == ad.id) count_view a.ads;
        views = db.views.create (record { ad_id = ad.id; viewer_hash = viewer }) a.views;
        earnings =
            db.earnings.create
              (record {
                user_id = ad.user_id;
                ad_id = ad.id;
                amount_usd = pos ptp_earning_per_view_usd;
              })
              a.earnings;
      },
    )
  ]

  -- From the advertisement on.
  unfoldable pub track_ad : PtpAd → String → Ads → Response (Unit {0}) × Ads
  unfolding pay_view
  track_ad ad viewer a =
      if not ad.is_active
      then (accepted tt, a)
      else if is_full ad
      then (
        accepted tt,
        record a {
          ads = db.ads.update (λ x. x.id == ad.id) (λ x. record x { is_active = false }) a.ads;
        },
      )
      else elim (db.views.find (is_view_of ad.id viewer) a.views) [
        | some _ ↦ (accepted tt, a)
        | none ↦ pay_view ad viewer a
      ]

  -- `trackView(req, res)`; the key is none where it is no number, and the search throws. The viewer is
  -- `finalHash`.
  unfoldable pub track_view : Option ℕ → String → Ads → Response (Unit {0}) × Ads
  unfolding track_ad
  track_view none viewer a = (rejected 500 "Server error", a)
  track_view (some ad_id) viewer a = elim (db.ads.find (λ x. x.id == ad_id) a.ads) [
    | none ↦ (accepted tt, a)
    | some ad ↦ track_ad ad viewer a
  ]
