-- ===== src/NodeHost/Container.antt =====
-- node-host/oci.js: `buildContainerSpec`, the arguments of the container that runs a bundle.
use circuit_agent_cloud.Prelude.{
  ℕ, ◌||◌, String, ◌==◌, List, [], ◌∷◌, ◌++◌, Option, none, some, includes, if◌then◌else◌,
}

-- A word of the command line: a fixed text, `name=value`, `from:to:mode`, a number, megabytes, or a
-- path under /app. How each is printed is left open.
pub data Word : Type 0 where
  flag : String → Word
  pair : String → String → Word
  mount : String → String → String → Word
  count : ℕ → Word
  megabytes : ℕ → Word
  app_file : String → Word

-- A missing text is "", a missing VM runtime or proxy none.
pub record Container : Type 0 where
  pub image : String
  pub name : String
  pub bundle_dir : String
  pub data_dir : String
  pub entry : String
  pub env : List (String × String)
  pub proxy_url : Option String
  pub network : String
  pub seccomp_profile : String
  pub mem_mb : ℕ
  pub pids : ℕ
  pub vm_runtime : Option String

-- `DROP`.
abbrev pub host_only : List String
host_only = "PATH" ∷ "HOME" ∷ "TMPDIR" ∷ "LANG" ∷ "TZ" ∷ "CIRCUIT_AGENT_DATA_DIR" ∷ []

unfoldable pub env_flags : List (String × String) → List Word
env_flags [] = []
env_flags ((k, v) ∷ rest) =
    if includes k host_only then env_flags rest else flag "-e" ∷ pair k v ∷ env_flags rest

unfoldable pub proxy_flags : Option String → List Word
proxy_flags none = []
proxy_flags (some url) =
    flag "-e"
    ∷ pair "HTTPS_PROXY" url
    ∷ flag "-e"
    ∷ pair "https_proxy" url
    ∷ flag "-e"
    ∷ pair "NO_PROXY" ""
    ∷ flag "-e"
    ∷ pair "no_proxy" ""
    ∷ []

unfoldable pub runtime_flags : Option String → List Word
runtime_flags none = []
runtime_flags (some vm) = flag "--runtime" ∷ flag vm ∷ []

unfoldable pub container_args : Container → List Word
unfolding env_flags proxy_flags runtime_flags
container_args c =
    (flag "run" ∷ flag "--rm" ∷ flag "--name" ∷ flag c.name ∷ [])
    ++ (runtime_flags c.vm_runtime
        ++ ((flag "--network"
              ∷ flag c.network
              ∷ flag "--read-only"
              ∷ flag "--cap-drop"
              ∷ flag "ALL"
              ∷ flag "--security-opt"
              ∷ flag "no-new-privileges"
              ∷ flag "--security-opt"
              ∷ pair "seccomp" c.seccomp_profile
              ∷ flag "--user"
              ∷ flag "65534:65534"
              ∷ flag "--pids-limit"
              ∷ count c.pids
              ∷ flag "--memory"
              ∷ megabytes c.mem_mb
              ∷ flag "--memory-swap"
              ∷ megabytes c.mem_mb
              ∷ flag "--tmpfs"
              ∷ flag "/tmp:rw,noexec,nosuid,size=64m"
              ∷ flag "-v"
              ∷ mount c.bundle_dir "/app" "ro"
              ∷ flag "-v"
              ∷ mount c.data_dir "/data" "rw"
              ∷ flag "-w"
              ∷ flag "/data"
              ∷ [])
            ++ (env_flags c.env
                ++ ((flag "-e"
                      ∷ pair "CIRCUIT_AGENT_DATA_DIR" "/data"
                      ∷ flag "-e"
                      ∷ pair "HOME" "/data"
                      ∷ [])
                    ++ (proxy_flags c.proxy_url
                        ++ (flag c.image ∷ flag "node" ∷ app_file c.entry ∷ []))))))

-- `none` is the thrown error: something is missing, or there is no isolated network.
unfoldable pub build_container_spec : Container → Option (List Word)
unfolding container_args
build_container_spec c =
    if c.name == "" || c.bundle_dir == "" || c.data_dir == "" || c.entry == "" || c.network == ""
    then none
    else some (container_args c)
