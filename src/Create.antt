-- ===== src/Create.antt =====
-- rtwcli/rtw_cmds/rtw_cmds/workspace/create_verb.py: creating a workspace. An option that is `None`
-- where it is not given is the empty text here, since the code only asks whether it is true.
pub mod Args
pub mod Arguments
pub mod Instance
pub mod Repos
pub mod Dockerfile
pub mod Image
pub mod Commands
pub mod Cleanup
pub mod Verb
pub mod Deletion
pub mod Execution
pub mod Saving
pub mod Creation
