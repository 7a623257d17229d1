-- ===== src/Tests/WatchTests.antt =====
-- Runs of watching and of paid views, and their theorems at those inputs.
use support_block_miner.Watch.State.{Watch, WatchDb, IsWatchDb}
use support_block_miner.Watch.Heartbeat.{process_heartbeat, youtube, stamp}
use support_block_miner.Watch.Videos.{claim_video_reward}
use support_block_miner.Watch.Budget.{IsTimed}
use support_block_miner.Watch.Runs.{no_request, one_more, beats, claims_video, run-IsTimed}
use support_block_miner.Ads.Views.{Ads, AdsDb, IsAdsDb, PtpAd, create_ad, track_view}
use support_block_miner.Ads.Balance.{promised, usdc_of, create_ad-negative, AdStep-promised, tracks}
use support_block_miner.Database.{User}
use support_block_miner.Base.Table.{memory, memory-IsTable}
use support_block_miner.Base.{none, some, true, false, [], ◌∷◌, refl, ◌*◌, ◌≡◌, arith}
use support_block_miner.Base.Int.{pos, negsuc, ◌+ℤ◌, int_laws}
use support_block_miner.Base.Http.{accepted}

abbrev watch_db : WatchDb
watch_db = record {
  viewers = memory;
  rewards = memory;
  gpus = memory;
  powers = memory;
  history = memory;
  inventory = memory;
}

watch_db-IsWatchDb : IsWatchDb watch_db
watch_db-IsWatchDb = record {
  viewers = memory-IsTable;
  rewards = memory-IsTable;
  gpus = memory-IsTable;
  powers = memory-IsTable;
  history = memory-IsTable;
  inventory = memory-IsTable;
}

-- A user who has watched for 60 seconds since the time 0.
abbrev watching : Watch
watching = record {
  viewers =
      record {
        id = 7;
        yt_seconds_balance = 60;
        auto_mining_seconds_balance = 0;
        last_heartbeat_at = some 40_000;
      }
      ∷ [];
  rewards = [];
  gpus = [];
  powers = [];
  history = [];
  inventory = [];
}

abbrev one_beat : Watch
one_beat = (process_heartbeat watch_db 48_000 (some youtube) false (stamp 48_000) 7 watching).1

abbrev one_claim : Watch
one_claim = (claim_video_reward watch_db 50_000 86_400_000 (some "video") 7 one_beat).1

run-IsTimed_example : IsTimed 0 one_claim
run-IsTimed_example =
    run-IsTimed watch_db 0 watch_db-IsWatchDb watching one_claim
      (one_more watching one_beat one_claim
        (one_more watching watching one_beat (no_request watching)
          (beats 48_000 7 (some youtube) false (stamp 48_000) watching (omega arith)))
        (claims_video 50_000 86_400_000 7 (some "video") one_beat))
      (record { viewer_ids = (tt, tt); gpu_ids = tt; in_time = (omega int_laws, tt) })

abbrev ads_db : AdsDb
ads_db = record { users = memory; ads = memory; views = memory; earnings = memory }

ads_db-IsAdsDb : IsAdsDb ads_db
ads_db-IsAdsDb = record {
  users = memory-IsTable;
  ads = memory-IsTable;
  views = memory-IsTable;
  earnings = memory-IsTable;
}

abbrev advertiser : User
advertiser = record {
  id = 7;
  pol_balance = pos 0;
  usdc_balance = pos 20_000_000;
  wallet_address = none;
}

abbrev ad : PtpAd
ad = record {
  id = 1;
  user_id = 7;
  title = "Ad";
  url = "https://example.org";
  hash = "00";
  is_active = true;
  views = pos 0;
  target_views = pos 5;
  paid_usd = pos 50_000;
  cost_usd = pos 50_000;
}

abbrev market : Ads
market = record { users = advertiser ∷ []; ads = ad ∷ []; views = []; earnings = [] }

abbrev viewed : Ads
viewed = (track_view ads_db (some 1) "viewer" market).1

AdStep-promised_example : promised 7 viewed ≡ promised 7 market
AdStep-promised_example =
    AdStep-promised ads_db ads_db-IsAdsDb 7 market viewed (tracks (some 1) "viewer" market)
      ((tt, tt), (tt, tt))

create_ad-negative_example :
    let made = create_ad ads_db 2 7 "Ad" "https://example.org" "01" (some (negsuc 999)) market in
    (made.0 ≡ accepted tt) × (usdc_of made.1 ≡ usdc_of market +ℤ pos (1000 * 10_000))
create_ad-negative_example =
    create_ad-negative ads_db ads_db-IsAdsDb 2 7 999 "Ad" "https://example.org" "01" market (tt, tt)
      refl (omega int_laws) (omega arith)
