-- ===== src/Tests.antt =====
-- Runs of the definitions at concrete inputs, and the theorems applied to such inputs.
mod LayoutRuns
mod ChapterRuns
mod ScopeRuns
mod ReconcileRuns
mod OperationRuns
mod StepMediaRuns
mod TokenRuns
mod UploadRuns
mod WorkflowRuns
mod ImportRuns
mod FolderRuns
mod TripRuns
mod PipelineRuns
mod SegmentRuns
mod MatchingRuns
mod RouteRuns
mod HashRuns
mod MatchRuns
mod ReplaceRuns
