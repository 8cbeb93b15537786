-- ===== src/Controller/Delete.antt =====
-- `DeleteVolume` of pkg/gce-csi-driver/controller.go.
pub mod Gone
use compute_persistent_disk.Prelude.{String, Option, ◌==◌, if◌then◌else◌}
use compute_persistent_disk.Go.Error.{
  status, end, error, invalid_argument, failed_precondition, internal, Result, ok, err, panic,
  Reply, panicked, respond, fail, status_error,
}
use compute_persistent_disk.Go.Handler.{
  Action, Body, next, ◌>>=◌, ◌>>◌, give, give_if, call, run, attempt,
}
use compute_persistent_disk.Csi.{DeleteVolumeRequest, Response, response}
use compute_persistent_disk.Cloud.{Operation, GceCompute, is_gce_error}
use compute_persistent_disk.Utils.{split_zone_name_id}

module _ (cloud : GceCompute) where
  open cloud use {State}

  -- What `DeleteVolume` does with the result of the deletion.
  abbrev deleted : Result (Option Operation) → Body State (Reply Response) (Option Operation)
  deleted (ok op) = λ s. (next op, s)
  deleted (err e) =
      if is_gce_error e "resourceInUseByAnotherResource"
      then give (fail (status failed_precondition "Volume in use: %v" (error e end)))
      else if is_gce_error e "notFound"
      then give (respond response)
      else give (fail (status internal "unknown Delete disk error: %v" (error e end)))
  deleted panic = give panicked

  -- `DeleteVolume` from the deletion of the disk on.
  unfoldable pub delete_named : String → String → Action State (Reply Response)
  unfolding is_gce_error
  delete_named zone name = run do
    answered ← call (cloud.delete_disk zone name)
    delete_op ← deleted answered
    attempt (cloud.wait_for_op delete_op zone)
        (λ e. status internal "unknown Delete disk operation error: %v" (error e end))
    give (respond response)

  -- An ID that does not split is that of no volume, and its deletion a success.
  abbrev delete_split : Result (String × String) → Body State (Reply Response) (Reply Response)
  delete_split (ok (zone, name)) = call (delete_named zone name)
  delete_split (err e) = give (respond response)
  delete_split panic = give panicked

  unfoldable pub delete_volume : DeleteVolumeRequest → Action State (Reply Response)
  unfolding delete_named split_zone_name_id
  delete_volume req = run do
    give_if (req.volume_id == "")
        (fail (status_error invalid_argument "DeleteVolume Volume ID must be provided"))
    delete_split (split_zone_name_id req.volume_id)
