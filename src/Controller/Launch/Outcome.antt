-- ===== src/Controller/Launch/Outcome.antt =====
-- The two ways in which `start_hss_rtc_execution` ends: no build, or a launch of one.
use st_tools.Prelude.{
  ◌≡◌, ◌⊎◌, refl, String, Bool, true, false, Option, none, some, arith, inl, inr, is_some,
}
use st_tools.Prelude.Exec.{Result, ok, err}
use st_tools.Json.{Value, null}
use st_tools.BuildHandler.Queue.{get_build}
use st_tools.BuildHandler.Builds.{fetch_build}
use st_tools.Controller.{World}
use st_tools.Controller.Launch.{
  Launch, select, take_build, take_info, launch, start_hss_rtc_execution,
}

-- What the choice of a build leaves alone.
pub record Selects (w v : World) : Type 0 where
  pub same_handler : v.rtc_handler ≡ w.rtc_handler
  pub same_paused : v.service_paused ≡ w.service_paused
  pub same_config : v.service_config ≡ w.service_config
  pub same_file : v.config_file ≡ w.config_file
  pub same_stop : v.current_test_can_be_stopped ≡ w.current_test_can_be_stopped
  pub same_sent : v.sent ≡ w.sent

abbrev pub Chooses : World → Result Bool × World → Type 0
Chooses w (r, v) = Selects w v × ((r ≡ ok false) ⊎ ((r ≡ ok true) × (is_some v.build ≡ true)))

take_build-Chooses :
    (r : Result (Option String × Value × Bool)) (w v : World)
    → Selects w v
    → Chooses w (take_build r v)
take_build-Chooses (ok (b, i, h)) w v s = ground arith
take_build-Chooses (err e) w v s = (s, inl refl)

take_info-Chooses :
    (b : String) (h : Bool) (r : Result Value) (w v : World)
    → Selects w v
    → Chooses w (take_info b h r v)
take_info-Chooses b h (ok i) w v s = ground arith
take_info-Chooses b h (err e) w v s = (s, inl refl)

select-Chooses : (b : Option String) (i : Value) (h : Bool) (w : World) → Chooses w (select b i h w)
unfolding select
select-Chooses none i h w = take_build-Chooses (get_build w.builds).0 w _ (ground arith)
select-Chooses (some b) null h w =
    take_info-Chooses b h (fetch_build b w.builds).0 w _ (ground arith)
select-Chooses (some b) i h w = (ground arith, inr (refl, refl))

-- Nothing was chosen, or the chosen build is launched.
pub start-cases :
    (b : Option String) (i : Value) (h : Bool) (l : Launch) (w : World)
    → ((v : World) × Selects w v × (start_hss_rtc_execution b i h l w ≡ (ok tt, v)))
      ⊎ ((v : World) × Selects w v
          × (is_some v.build ≡ true)
          × (start_hss_rtc_execution b i h l w ≡ (ok tt, launch l v)))
unfolding start_hss_rtc_execution
start-cases b i h l w =
    let (s, c) = select-Chooses b i h w in
    let v = (select b i h w).1 in
    elim c [ inl e ↦ inl (v, s, rw e) | inr (e, f) ↦ inr (v, s, f, rw e) ]
