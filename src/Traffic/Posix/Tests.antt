-- ===== src/Traffic/Posix/Tests.antt =====
-- The theorems about the simulation with the semaphores of POSIX at a concrete run.
use operating_systems_course.Common.{◌≤◌, ◌+◌, refl, true, false, pos, ◌+ℤ◌, ◌⊎◌}
use operating_systems_course.Traffic.{ProducerAt, produce}
use operating_systems_course.Traffic.System.{empty_road}
use operating_systems_course.Traffic.Exclusion.{producer_asks, consumer_asks}
use operating_systems_course.Traffic.Posix.{
  south_ready, south_road_producer, sem_wait, Simulation, initial, Run,
}
use operating_systems_course.Traffic.Posix.Safety.{
  FlagpersonGoes, NorthGoes, SouthGoes, Run-one_inside, Run-ten_cars, Run-one_goes,
}

-- The south producer has a car and has written it.
abbrev one_car : Simulation
one_car = record initial {
  road = record initial.road {
    south_road = record empty_road {
      car_arrived = true;
      write_index = 1;
      counter = pos 1;
      total = 1;
    };
    south_sem_empty = 9;
    sem_mutex = 0;
  };
  south_at = ProducerAt.leaves;
}

one_car-Run : Run one_car
unfolding south_road_producer south_ready produce sem_wait ◌+ℤ◌
one_car-Run =
    Run.south_step false
      (Run.south_step false
        (Run.south_step false (Run.south_step true Run.start refl refl) refl refl) refl refl)
      refl refl

Run-one_inside_example :
    producer_asks one_car.north_at
      + (producer_asks one_car.south_at + consumer_asks one_car.flagperson_at)
    ≤ 1
Run-one_inside_example = Run-one_inside one_car one_car-Run

Run-ten_cars_example : one_car.road.south_road.total ≤ 10
Run-ten_cars_example = Run-ten_cars one_car one_car-Run

Run-one_goes_example : FlagpersonGoes one_car ⊎ (NorthGoes one_car ⊎ SouthGoes one_car)
Run-one_goes_example = Run-one_goes one_car one_car-Run
