-- ===== src/GitHub/Routes/Actions.antt =====
-- The routes of the scope `actions` (examples/add-runner.js, module 6752).
use github_runner_autoscaler.Common.{Text, String, codes, List, [], ◌∷◌, none, some}
use github_runner_autoscaler.GitHub.Merge.{end}
use github_runner_autoscaler.GitHub.Routes.{Decorations, Entry}

abbrev plain : String → String → Text × Entry
plain name route = (codes name, record { route = codes route; defaults = end; decorations = none })

abbrev renamed_to : Text → Text → Decorations
renamed_to scope name = record {
  map_to_data = none;
  renamed = some (scope, name);
  deprecated = none;
  renamed_parameters = [];
}

-- `Endpoints.actions`
unfoldable pub actions : List (Text × Entry)
actions =
    plain "addSelectedRepoToOrgSecret"
      "PUT /orgs/{org}/actions/secrets/{secret_name}/repositories/{repository_id}"
    ∷ plain "cancelWorkflowRun" "POST /repos/{owner}/{repo}/actions/runs/{run_id}/cancel"
    ∷ plain "createOrUpdateEnvironmentSecret"
        "PUT /repositories/{repository_id}/environments/{environment_name}/secrets/{secret_name}"
    ∷ plain "createOrUpdateOrgSecret" "PUT /orgs/{org}/actions/secrets/{secret_name}"
    ∷ plain "createOrUpdateRepoSecret" "PUT /repos/{owner}/{repo}/actions/secrets/{secret_name}"
    ∷ plain "createRegistrationTokenForOrg" "POST /orgs/{org}/actions/runners/registration-token"
    ∷ plain "createRegistrationTokenForRepo"
        "POST /repos/{owner}/{repo}/actions/runners/registration-token"
    ∷ plain "createRemoveTokenForOrg" "POST /orgs/{org}/actions/runners/remove-token"
    ∷ plain "createRemoveTokenForRepo" "POST /repos/{owner}/{repo}/actions/runners/remove-token"
    ∷ plain "createWorkflowDispatch"
        "POST /repos/{owner}/{repo}/actions/workflows/{workflow_id}/dispatches"
    ∷ plain "deleteArtifact" "DELETE /repos/{owner}/{repo}/actions/artifacts/{artifact_id}"
    ∷ plain "deleteEnvironmentSecret"
        "DELETE /repositories/{repository_id}/environments/{environment_name}/secrets/{secret_name}"
    ∷ plain "deleteOrgSecret" "DELETE /orgs/{org}/actions/secrets/{secret_name}"
    ∷ plain "deleteRepoSecret" "DELETE /repos/{owner}/{repo}/actions/secrets/{secret_name}"
    ∷ plain "deleteSelfHostedRunnerFromOrg" "DELETE /orgs/{org}/actions/runners/{runner_id}"
    ∷ plain "deleteSelfHostedRunnerFromRepo"
        "DELETE /repos/{owner}/{repo}/actions/runners/{runner_id}"
    ∷ plain "deleteWorkflowRun" "DELETE /repos/{owner}/{repo}/actions/runs/{run_id}"
    ∷ plain "deleteWorkflowRunLogs" "DELETE /repos/{owner}/{repo}/actions/runs/{run_id}/logs"
    ∷ plain "disableSelectedRepositoryGithubActionsOrganization"
        "DELETE /orgs/{org}/actions/permissions/repositories/{repository_id}"
    ∷ plain "disableWorkflow" "PUT /repos/{owner}/{repo}/actions/workflows/{workflow_id}/disable"
    ∷ plain "downloadArtifact"
        "GET /repos/{owner}/{repo}/actions/artifacts/{artifact_id}/{archive_format}"
    ∷ plain "downloadJobLogsForWorkflowRun" "GET /repos/{owner}/{repo}/actions/jobs/{job_id}/logs"
    ∷ plain "downloadWorkflowRunLogs" "GET /repos/{owner}/{repo}/actions/runs/{run_id}/logs"
    ∷ plain "enableSelectedRepositoryGithubActionsOrganization"
        "PUT /orgs/{org}/actions/permissions/repositories/{repository_id}"
    ∷ plain "enableWorkflow" "PUT /repos/{owner}/{repo}/actions/workflows/{workflow_id}/enable"
    ∷ plain "getAllowedActionsOrganization" "GET /orgs/{org}/actions/permissions/selected-actions"
    ∷ plain "getAllowedActionsRepository"
        "GET /repos/{owner}/{repo}/actions/permissions/selected-actions"
    ∷ plain "getArtifact" "GET /repos/{owner}/{repo}/actions/artifacts/{artifact_id}"
    ∷ plain "getEnvironmentPublicKey"
        "GET /repositories/{repository_id}/environments/{environment_name}/secrets/public-key"
    ∷ plain "getEnvironmentSecret"
        "GET /repositories/{repository_id}/environments/{environment_name}/secrets/{secret_name}"
    ∷ plain "getGithubActionsPermissionsOrganization" "GET /orgs/{org}/actions/permissions"
    ∷ plain "getGithubActionsPermissionsRepository" "GET /repos/{owner}/{repo}/actions/permissions"
    ∷ plain "getJobForWorkflowRun" "GET /repos/{owner}/{repo}/actions/jobs/{job_id}"
    ∷ plain "getOrgPublicKey" "GET /orgs/{org}/actions/secrets/public-key"
    ∷ plain "getOrgSecret" "GET /orgs/{org}/actions/secrets/{secret_name}"
    ∷ plain "getPendingDeploymentsForRun"
        "GET /repos/{owner}/{repo}/actions/runs/{run_id}/pending_deployments"
    ∷ (
      codes "getRepoPermissions",
      record {
        route = codes "GET /repos/{owner}/{repo}/actions/permissions";
        defaults = end;
        decorations =
            some (renamed_to (codes "actions") (codes "getGithubActionsPermissionsRepository"));
      },
    )
    ∷ plain "renamed" "actions"
    ∷ plain "getRepoPublicKey" "GET /repos/{owner}/{repo}/actions/secrets/public-key"
    ∷ plain "getRepoSecret" "GET /repos/{owner}/{repo}/actions/secrets/{secret_name}"
    ∷ plain "getReviewsForRun" "GET /repos/{owner}/{repo}/actions/runs/{run_id}/approvals"
    ∷ plain "getSelfHostedRunnerForOrg" "GET /orgs/{org}/actions/runners/{runner_id}"
    ∷ plain "getSelfHostedRunnerForRepo" "GET /repos/{owner}/{repo}/actions/runners/{runner_id}"
    ∷ plain "getWorkflow" "GET /repos/{owner}/{repo}/actions/workflows/{workflow_id}"
    ∷ plain "getWorkflowRun" "GET /repos/{owner}/{repo}/actions/runs/{run_id}"
    ∷ plain "getWorkflowRunUsage" "GET /repos/{owner}/{repo}/actions/runs/{run_id}/timing"
    ∷ plain "getWorkflowUsage" "GET /repos/{owner}/{repo}/actions/workflows/{workflow_id}/timing"
    ∷ plain "listArtifactsForRepo" "GET /repos/{owner}/{repo}/actions/artifacts"
    ∷ plain "listEnvironmentSecrets"
        "GET /repositories/{repository_id}/environments/{environment_name}/secrets"
    ∷ plain "listJobsForWorkflowRun" "GET /repos/{owner}/{repo}/actions/runs/{run_id}/jobs"
    ∷ plain "listOrgSecrets" "GET /orgs/{org}/actions/secrets"
    ∷ plain "listRepoSecrets" "GET /repos/{owner}/{repo}/actions/secrets"
    ∷ plain "listRepoWorkflows" "GET /repos/{owner}/{repo}/actions/workflows"
    ∷ plain "listRunnerApplicationsForOrg" "GET /orgs/{org}/actions/runners/downloads"
    ∷ plain "listRunnerApplicationsForRepo" "GET /repos/{owner}/{repo}/actions/runners/downloads"
    ∷ plain "listSelectedReposForOrgSecret"
        "GET /orgs/{org}/actions/secrets/{secret_name}/repositories"
    ∷ plain "listSelectedRepositoriesEnabledGithubActionsOrganization"
        "GET /orgs/{org}/actions/permissions/repositories"
    ∷ plain "listSelfHostedRunnersForOrg" "GET /orgs/{org}/actions/runners"
    ∷ plain "listSelfHostedRunnersForRepo" "GET /repos/{owner}/{repo}/actions/runners"
    ∷ plain "listWorkflowRunArtifacts" "GET /repos/{owner}/{repo}/actions/runs/{run_id}/artifacts"
    ∷ plain "listWorkflowRuns" "GET /repos/{owner}/{repo}/actions/workflows/{workflow_id}/runs"
    ∷ plain "listWorkflowRunsForRepo" "GET /repos/{owner}/{repo}/actions/runs"
    ∷ plain "reRunWorkflow" "POST /repos/{owner}/{repo}/actions/runs/{run_id}/rerun"
    ∷ plain "removeSelectedRepoFromOrgSecret"
        "DELETE /orgs/{org}/actions/secrets/{secret_name}/repositories/{repository_id}"
    ∷ plain "reviewPendingDeploymentsForRun"
        "POST /repos/{owner}/{repo}/actions/runs/{run_id}/pending_deployments"
    ∷ plain "setAllowedActionsOrganization" "PUT /orgs/{org}/actions/permissions/selected-actions"
    ∷ plain "setAllowedActionsRepository"
        "PUT /repos/{owner}/{repo}/actions/permissions/selected-actions"
    ∷ plain "setGithubActionsPermissionsOrganization" "PUT /orgs/{org}/actions/permissions"
    ∷ plain "setGithubActionsPermissionsRepository" "PUT /repos/{owner}/{repo}/actions/permissions"
    ∷ plain "setSelectedReposForOrgSecret"
        "PUT /orgs/{org}/actions/secrets/{secret_name}/repositories"
    ∷ plain "setSelectedRepositoriesEnabledGithubActionsOrganization"
        "PUT /orgs/{org}/actions/permissions/repositories"
    ∷ []
