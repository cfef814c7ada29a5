-- ===== src/Tests.antt =====
-- Runs of the model on concrete inputs, most of them from the unit tests of the repository.
mod Data
mod ReducerRuns
mod ResumeRuns
mod ExecutorRuns
mod ValidationRuns
mod AsusRuns
mod SysfsRuns
mod ShimRuns
mod ServiceRuns
mod DaemonRuns
