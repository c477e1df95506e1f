-- ===== src/Examples.antt =====
-- The theorems at concrete inputs: the parts of the program on small data.
mod Texts
mod Connection
mod Basics
mod Running
mod Guest
mod Planning
mod Pools
mod Machines
mod Plots
mod Coverage
mod Downloads
mod Launches
mod Spawning
mod Builds
