-- ===== src/Admin/Reports.antt =====
-- frontend/packages/admin/src/pages/ZReport.tsx and DsfinvkExport.tsx: the reports for a range of dates. A
-- report is a value of a parameter.
use openmarket.Prelude.{refl, true, Option, none, some, List, [], ◌∷◌, ◌++◌, Text, codes}
use openmarket.Shared.Machine.{Machine, Reach, Reply, done, failed, here, more, act, reply}
use openmarket.Shared.Api.Staff.{dsfinvk_url}

module _ (Report : Type 0) where
  pub record State : Type 0 where
    pub from : Text
    pub to : Text
    pub report : Option Report
    pub error : Option Text

  -- `api.reports.zReport`.
  pub data Request : Type 0 where
    z_report : Text → Text → Request

  pub data Event : Type 0 where
    from_typed to_typed : Text → Event
    run_clicked : Event

  abbrev pub day_start : Text → Text
  day_start today = today ++ codes "T00:00:00"

  abbrev pub day_end : Text → Text
  day_end today = today ++ codes "T23:59:59"

  abbrev pub initial : Text → State
  initial today = record { from = day_start today; to = day_end today; report = none; error = none }

  unfoldable pub react : Event → State → State × List Request
  react (from_typed t) s = (record s { from = t }, [])
  react (to_typed t) s = (record s { to = t }, [])
  react run_clicked s = (s, z_report s.from s.to ∷ [])

  unfoldable pub replied : Reply Report → State → State
  replied (done r) s = record s { report = some r }
  replied (failed m) s = record s { error = some m }

  abbrev pub page : Machine
  page = record {
    State = State;
    Event = Event;
    Request = Request;
    Answer = λ r. Reply Report;
    is_offered = λ e s. true;
    react = react;
    replied = λ r a s. (replied a s, []);
  }

  -- An error is not cleared by a report that comes after it: both are shown then.
  pub error_kept :
      (today m : Text) (r : Report)
      → let s = initial today in
        Reach page
          (record { state = s; waiting = [] })
          (record { state = record s { report = some r; error = some m }; waiting = [] })
  unfolding react replied
  error_kept today m r =
      let q = z_report (day_start today) (day_end today) in
      more
        (more (more (more here (act run_clicked refl refl)) (reply [] [] q (failed m) refl refl))
          (act run_clicked refl refl))
        (reply [] [] q (done r) refl refl)

-- The link of the export, and the name of the file.
pub record Link : Type 0 where
  pub href : Text
  pub download : Text

unfoldable pub export_link : Text → Text → Link
unfolding dsfinvk_url
export_link from to = record {
  href = dsfinvk_url from to;
  download = codes "dsfinvk-" ++ (from ++ (codes "-" ++ (to ++ codes ".zip")));
}
